-- ===== src/Gamesync/Issued.antt =====
-- gamesync.go: a token that IssueToken has issued, and the calls that bear it.
use text.Mathlib.TextLemmas.{cons-append, cons-ne-nil}
use super_mario_bros_wonder.Base.{
  String, ℕ, pos, true, false, Option, none, some, ◌==◌, ◌⊕◌, ◌+◌, ◌<◌, ◌≡◌, ◌≢◌, refl, sym, ap,
  ◌∙◌, subst, arith, inl, inr, Bool-cases, Option-cases, Result, Code, ok, err, internal,
  unauthenticated, invalid_argument, permission_denied, get, get-put_self, eq_iff, eq_refl, leb_ℤ,
  ltb_ℤ,
}
use super_mario_bros_wonder.Proto.{GameSession, UserSession, Timestamp}
use super_mario_bros_wonder.Names.{last_resource_segment, npln_issuer, npln_tenant, npln_tenant_id}
use super_mario_bros_wonder.Auth.{Context, bearer_token}
use super_mario_bros_wonder.Registry.{SessionRegistry}
use super_mario_bros_wonder.Registry as Registry
use super_mario_bros_wonder.Gamesync.{GamesyncSession}
use super_mario_bros_wonder.Gamesync.State.{Gamesync}
use super_mario_bros_wonder.Gamesync.Sessions.{
  GssMatchClaims, GamesyncAccessClaims, TokenReader, bind, only_if, signed_payload,
  valid_match_claims, valid_access_claims, verify_gss_match_token, verify_gamesync_access_token,
  token_fits, authorized_session, number_session, filled, store_session, remember_session,
}
use super_mario_bros_wonder.Gamesync.Expiry.{stream_count, schedule_disconnect}
use super_mario_bros_wonder.Gamesync.Access.{
  bind-eq-some, only_if-eq-some, schedule_disconnect_lem, schedule_disconnect_open,
}
use super_mario_bros_wonder.Gamesync.Issue.{
  Issuer, IssueClock, mint_session_token, match_game_session, names_user_session, matched_session,
  admit_session, issue_for, issue_token, initialize_fixed_data,
}

pub empty_append : (s t : String) → s ⊕ t ≡ "" → s ≡ ""
empty_append String.[] t e = refl
empty_append (String.◌∷◌ c s) t e = let f = rw cons-append at e in absurd (cons-ne-nil c (s ⊕ t) f)

-- The session that is stored is the one that was given, but for its numbers.
abbrev pub SameSession : GamesyncSession → GamesyncSession → Type 0
SameSession full session =
    (full.uid ≡ session.uid)
    × (full.game_session ≡ session.game_session)
    × (full.user_session ≡ session.user_session)

abbrev pub Holds : Gamesync → GamesyncSession → Type 0
Holds g session =
    (full : GamesyncSession) × (get g.sessions (last_resource_segment session.user_session)
      ≡ some full)
    × SameSession full session

stored_session :
    (now : Timestamp) (g : Gamesync) (session : GamesyncSession) (previous : Option GamesyncSession)
    → Holds
        (store_session now (
          (number_session now g session previous).0,
          filled (number_session now g session previous).1,
        ))
        session
unfolding store_session number_session
stored_session now g session none =
    (_, get-put_self g.sessions (last_resource_segment session.user_session) _, (refl, refl, refl))
stored_session now g session (some previous) =
    (_, get-put_self g.sessions (last_resource_segment session.user_session) _, (refl, refl, refl))

remember-Holds :
    (now : Timestamp) (g : Gamesync) (session : GamesyncSession)
    → Holds (remember_session now g session).0 session
unfolding remember_session
remember-Holds now g session =
    stored_session now g session (get g.sessions (last_resource_segment session.user_session))

schedule-sessions : (g : Gamesync) (id : String) → (schedule_disconnect g id).sessions ≡ g.sessions
schedule-sessions g id = elim (Bool-cases (ltb_ℤ (pos 0) (stream_count g id))) [
  | inl e ↦ rw (schedule_disconnect_open g id e) refl
  | inr e ↦ rw (schedule_disconnect_lem g id e) refl
]

pub admit-Holds :
    (between : Gamesync → Gamesync) (now : Timestamp) (g : Gamesync) (session : GamesyncSession)
    → ((h : Gamesync) (k : String) → get (between h).sessions k ≡ get h.sessions k)
    → Holds (admit_session between now g session) session
unfolding admit_session
admit-Holds between now g session keeps =
    let id = last_resource_segment session.user_session in
    let (full, found, same) = remember-Holds now g session in
    let later = between (remember_session now g session).0 in
    (
      full,
      ap (λ m. get m id) (schedule-sessions later id)
          ∙ keeps (remember_session now g session).0 id
          ∙ found,
      same,
    )

-- The claims of a session token that is minted at a time.
abbrev pub minted : ℕ → String → String → String → GamesyncAccessClaims
minted unix uid game user = record {
  expires_at = pos (unix + 28800);
  issuer = npln_issuer;
  subject = uid;
  tenant_id = npln_tenant_id;
  game_session = game;
  user_session = user;
}

pub unequal : (s t : String) → s ≢ t → (s == t) ≡ false
unequal s t h = ground (arith, eq_iff s t)

pub minted_valid :
    (unix later : ℕ) (uid game user : String)
    → later < unix + 28800
    → uid ≢ ""
    → game ≢ ""
    → user ≢ ""
    → valid_access_claims later (minted unix uid game user) ≡ true
unfolding valid_access_claims
minted_valid unix later uid game user h u g s =
    let unexpired : leb_ℤ (pos (unix + 28800)) (pos later) ≡ false = ground arith in
    rw (unexpired, unequal uid "" u, unequal game "" g, unequal user "" s) refl

pub minted_fits :
    (unix : ℕ) (session : GamesyncSession) (uid game user : String)
    → session.uid ≡ uid
    → session.game_session ≡ game
    → session.user_session ≡ user
    → token_fits (minted unix uid game user) "userSessions/current" session ≡ true
unfolding token_fits
minted_fits unix session uid game user e f g =
    rw (e, f, g, eq_refl uid, eq_refl game, eq_refl (last_resource_segment user)) refl

pub authorized_lem :
    (v : TokenReader) (later : ℕ) (g : Gamesync) (ctx : Context) (name token : String)
    (c : GamesyncAccessClaims) (full : GamesyncSession)
    → bearer_token ctx ≡ some token
    → bind (signed_payload v token) v.decode_access ≡ some c
    → valid_access_claims later c ≡ true
    → get g.sessions (last_resource_segment c.user_session) ≡ some full
    → token_fits c name full ≡ true
    → authorized_session v later g ctx name ≡ some full
unfolding authorized_session verify_gamesync_access_token
authorized_lem v later g ctx name token c full a b d e f = rw (a, b, d, e, f) refl

-- What a call of IssueToken that answers has done.
pub data Issued (env : Issuer) (clock : IssueClock) (between : Gamesync → Gamesync)
    (match_token requested : String) (after : Gamesync) (token : String) : Type 0 where
  issued :
      (c : GssMatchClaims) (user : UserSession) (g : Gamesync)
      → verify_gss_match_token env.reader clock.unix match_token ≡ some c
      → names_user_session c requested ≡ true
      → after ≡ admit_session between clock.now g (matched_session env.codec c requested user)
      → token
        ≡ mint_session_token env.codec clock.unix c.subject npln_tenant
            (match_game_session c)
            requested
      → Issued env clock between match_token requested after token

pub verified_match :
    (v : TokenReader) (unix : ℕ) (token : String) (c : GssMatchClaims)
    → verify_gss_match_token v unix token ≡ some c
    → valid_match_claims unix c ≡ true
unfolding verify_gss_match_token
verified_match v unix token c h =
    let (d, decoded, valid) =
      bind-eq-some (bind (signed_payload v token) v.decode_match)
        (λ c. only_if (valid_match_claims unix c) c) c h in
    let (good, same) = only_if-eq-some (valid_match_claims unix d) d c valid in
    subst (λ k. valid_match_claims unix k ≡ true) same good

same_ok : (s t : String) → ok s ≡ ok t → s ≡ t
same_ok s t e = ground arith

issue_for-Issued :
    (env : Issuer) (clock : IssueClock) (before between : Gamesync → Gamesync) (g : Gamesync)
    (c : GssMatchClaims) (match_token requested : String) (found : GameSession × UserSession)
    (token : String)
    → verify_gss_match_token env.reader clock.unix match_token ≡ some c
    → names_user_session c requested ≡ true
    → (issue_for env clock before between g c requested found).1 ≡ ok token
    → Issued env clock between match_token requested
        (issue_for env clock before between g c requested found).0
        token
unfolding issue_for
issue_for-Issued env clock before between g c match_token requested (gs, user) token v n h =
    elim (Bool-cases (initialize_fixed_data env clock.now g gs).1) [
      | inr e ↦ let f : err internal ≡ ok token = rw e at h in absurd (ground arith)
      | inl e ↦ rw e (issued c user _ v n refl (sym (same_ok _ _ (rw e at h))))
    ]

-- An answer that is a token is one that was issued.
abbrev pub Answers :
    Issuer
    → IssueClock
    → (Gamesync → Gamesync)
    → String
    → String
    → String
    → Gamesync × Result String
    → Type 0
Answers env clock between match_token requested token answer =
    answer.1 ≡ ok token → Issued env clock between match_token requested answer.0 token

refused_answer :
    (env : Issuer) (clock : IssueClock) (between : Gamesync → Gamesync)
    (match_token requested token : String) (g : Gamesync) (code : Code)
    → Answers env clock between match_token requested token (g, err code)
refused_answer env clock between match_token requested token g code h = absurd (ground arith)

pub issue_token-Issued :
    (env : Issuer) (clock : IssueClock) (before between : Gamesync → Gamesync) (r : SessionRegistry)
    (g : Gamesync) (match_token requested token : String)
    → Answers env clock between match_token requested token
        (issue_token env clock before between r g match_token requested)
unfolding issue_token
issue_token-Issued env clock before between r g match_token requested token =
    elim (Option-cases (verify_gss_match_token env.reader clock.unix match_token)) [
      | inl e ↦
          rw (e, issue_token)
            (refused_answer env clock between match_token requested token g unauthenticated)
      | inr (c, e) ↦ elim (Bool-cases (names_user_session c requested)) [
        | inr n ↦
            rw (e, issue_token, n)
              (refused_answer env clock between match_token requested token g invalid_argument)
        | inl n ↦
            elim (Option-cases (Registry.member r (match_game_session c) requested c.subject)) [
              | inl m ↦
                  rw (e, issue_token, n, m)
                    (refused_answer env clock between match_token requested token g
                      permission_denied)
              | inr (found, m) ↦
                  rw (e, issue_token, n, m)
                    (λ h.
                      issue_for-Issued env clock before between g c match_token requested found
                        token e n h)
            ]
      ]
    ]
