-- ===== src/Auth.antt =====
-- Who calls: bearerToken (gamesync.go), uidFromCtx (friends.go), authenticatedNPLNUID and
-- canonicalFriendUIDs (session_registry.go). The check of a signature, the decoding of a payload
-- (base64 and JSON) and the account service are parameters.
pub mod Identity
use super_mario_bros_wonder.Base.{
  String, ℕ, ℤ, pos, Bool, true, false, not, ◌&&◌, ◌||◌, Option, none, some, List, [], ◌∷◌, ◌==◌,
  if◌then◌else◌, Code, unauthenticated, permission_denied, unavailable, Result, ok, err, refuse_if,
  ◌>>=◌, ◌>>◌, split, trim_space, strip_prefix_fold, leb_ℤ, map,
}
use super_mario_bros_wonder.Names.{npln_issuer, npln_tenant_id}

-- The metadata of a call: the values of `authorization` and of `uid`.
pub record Context : Type 0 where
  pub authorization : List String
  pub uid : List String

-- The claims that are read from a payload; a claim that is missing is "" or 0.
pub record Claims : Type 0 where
  pub subject : String
  pub issuer : String
  pub expires : ℤ
  pub tenant : String

pub record Verifier : Type 0 where
  pub verify : String → String → String → Bool
  pub decode : String → Option Claims

unfoldable pub uid_from_ctx : Context → String
uid_from_ctx ctx = elim ctx.uid [ [] ↦ "" | uid ∷ _ ↦ uid ]

first_bearer : List String → Option String
first_bearer [] = none
first_bearer (value ∷ values) = elim (strip_prefix_fold "bearer " (trim_space value)) [
  | some (String.◌∷◌ c rest) ↦ some (trim_space (String.◌∷◌ c rest))
  | _ ↦ first_bearer values
]

unfoldable pub bearer_token : Context → Option String
unfolding first_bearer
bearer_token ctx = first_bearer ctx.authorization

-- The claims of a token in three parts whose signature verifies.
unfoldable pub signed_claims : Verifier → String → Option Claims
signed_claims v token = elim (split b'.' token) [
  | header ∷ payload ∷ signature ∷ [] ↦
      if v.verify header payload signature then v.decode payload else none
  | _ ↦ none
]

-- What the guard on the decoded claims lets through.
unfoldable pub valid_claims : ℕ → Claims → Bool
valid_claims unix c =
    not (c.subject == "")
    && (c.issuer == npln_issuer)
    && not (leb_ℤ c.expires (pos unix))
    && (c.tenant == npln_tenant_id)

check_claims : ℕ → String → Option Claims → Result String
check_claims unix hinted none = err unauthenticated
check_claims unix hinted (some c) = do
  refuse_if (not (valid_claims unix c)) unauthenticated
  refuse_if (not (hinted == "") && not (hinted == c.subject)) permission_denied
  ok c.subject

or_unauthenticated {ℓ} : {A : Type ℓ} → Option A → Result A
or_unauthenticated none = err unauthenticated
or_unauthenticated (some a) = ok a

unfoldable pub authenticated_npln_uid : Verifier → ℕ → Context → Result String
unfolding check_claims or_unauthenticated
authenticated_npln_uid v unix ctx = do
  token ← or_unauthenticated (bearer_token ctx)
  check_claims unix (uid_from_ctx ctx) (signed_claims v token)

pub record Account : Type 0 where
  pub user_id : String
  pub friends : List String

-- `account` is what accountFriends answers for the caller's pid, `none` if it fails; the outer
-- `none` is a caller with no pid.
unfoldable pub canonical_friend_uids : Option (Option Account) → String → Result (List String)
canonical_friend_uids none uid = err unauthenticated
canonical_friend_uids (some none) uid = err unavailable
canonical_friend_uids (some (some account)) uid = do
  refuse_if (not (account.user_id == uid)) permission_denied
  ok (uid ∷ account.friends)
