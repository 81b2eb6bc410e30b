-- ===== src/Auth/Identity.antt =====
-- What an authenticated uid rests on.
use super_mario_bros_wonder.Base.{
  String, ℕ, some, ◌≡◌, ◌≢◌, ◌⊎◌, ◌↔◌, inl, inr, ok, arith, eq_iff, pos_part, neg_part, ◌+◌, ◌<◌,
  Option-cases,
}
use super_mario_bros_wonder.Names.{npln_issuer, npln_tenant_id}
use super_mario_bros_wonder.Auth.{
  Context, Claims, Verifier, uid_from_ctx, bearer_token, signed_claims, valid_claims, check_claims,
  authenticated_npln_uid,
}

-- The claims behind a uid that the server accepts.
pub record IsAuthentic (v : Verifier) (unix : ℕ) (ctx : Context) (uid : String) : Type 0 where
  pub token : String
  pub claims : Claims
  pub bearer : bearer_token ctx ≡ some token
  pub signed : signed_claims v token ≡ some claims
  pub subject : claims.subject ≡ uid
  pub named : uid ≢ ""
  pub issuer : claims.issuer ≡ npln_issuer
  pub tenant : claims.tenant ≡ npln_tenant_id
  pub fresh : unix + neg_part claims.expires < pos_part claims.expires
  pub hint : (uid_from_ctx ctx ≡ "") ⊎ (uid_from_ctx ctx ≡ uid)

check_claims-eq-ok :
    (unix : ℕ) (hinted : String) (c : Claims) (uid : String)
    → check_claims unix hinted (some c) ≡ ok uid
    → (c.subject ≡ uid)
      × (uid ≢ "")
      × (c.issuer ≡ npln_issuer)
      × (c.tenant ≡ npln_tenant_id)
      × (unix + neg_part c.expires < pos_part c.expires)
      × ((hinted ≡ "") ⊎ (hinted ≡ uid))
unfolding check_claims valid_claims
check_claims-eq-ok unix hinted c uid h = ground (
  arith,
  eq_iff c.subject "",
  eq_iff c.issuer npln_issuer,
  eq_iff c.tenant npln_tenant_id,
  eq_iff hinted "",
  eq_iff hinted c.subject,
)

check_claims-of-valid :
    (unix : ℕ) (hinted : String) (c : Claims) (uid : String)
    → c.subject ≡ uid
    → uid ≢ ""
    → c.issuer ≡ npln_issuer
    → c.tenant ≡ npln_tenant_id
    → unix + neg_part c.expires < pos_part c.expires
    → (hinted ≡ "") ⊎ (hinted ≡ uid)
    → check_claims unix hinted (some c) ≡ ok uid
unfolding check_claims valid_claims
check_claims-of-valid unix hinted c uid s n i t e h = ground (
  arith,
  eq_iff c.subject "",
  eq_iff c.issuer npln_issuer,
  eq_iff c.tenant npln_tenant_id,
  eq_iff hinted "",
  eq_iff hinted c.subject,
)

authenticated-IsAuthentic :
    (v : Verifier) (unix : ℕ) (ctx : Context) (uid : String)
    → authenticated_npln_uid v unix ctx ≡ ok uid
    → IsAuthentic v unix ctx uid
unfolding authenticated_npln_uid
authenticated-IsAuthentic v unix ctx uid h = elim (Option-cases (bearer_token ctx)) [
  | inl e ↦ cc (rw (e, authenticated_npln_uid) at h)
  | inr (token, e) ↦ elim (Option-cases (signed_claims v token)) [
    | inl f ↦ cc (rw (e, f, authenticated_npln_uid) at h)
    | inr (c, f) ↦
        let g : check_claims unix (uid_from_ctx ctx) (some c) ≡ ok uid = ground (arith, h, e, f) in
        let (s, n, i, t, x, p) = check_claims-eq-ok unix (uid_from_ctx ctx) c uid g in
        record {
          token = token;
          claims = c;
          bearer = e;
          signed = f;
          subject = s;
          named = n;
          issuer = i;
          tenant = t;
          fresh = x;
          hint = p;
        }
  ]
]

-- A uid is accepted exactly when a bearer token whose signature verifies names it as its subject,
-- with the server's issuer and tenant, before it expires, and the `uid` metadata, if given, agrees.
pub authenticated_npln_uid_iff :
    (v : Verifier) (unix : ℕ) (ctx : Context) (uid : String)
    → (authenticated_npln_uid v unix ctx ≡ ok uid) ↔ IsAuthentic v unix ctx uid
unfolding authenticated_npln_uid
authenticated_npln_uid_iff v unix ctx uid = (
  authenticated-IsAuthentic v unix ctx uid,
  λ a.
      rw (a.bearer, a.signed, authenticated_npln_uid)
        (check_claims-of-valid unix (uid_from_ctx ctx) a.claims uid a.subject a.named a.issuer
          a.tenant a.fresh a.hint),
)
