-- ===== src/Gamesync/Ended.antt =====
-- gamesync.go, gamesync_store.go: a session that a timer has ended.
use super_mario_bros_wonder.Base.{
  String, ℕ, none, some, List, [], ◌∷◌, ◌≡◌, ◌≢◌, refl, sym, ap, ◌∙◌, arith, inl, inr, Option-cases,
  All, get, get-delete, eq_refl, subst,
}
use super_mario_bros_wonder.Auth.{Context}
use super_mario_bros_wonder.Registry.{SessionRegistry}
use super_mario_bros_wonder.Gamesync.{GamesyncSession}
use super_mario_bros_wonder.Gamesync.State.{Gamesync}
use super_mario_bros_wonder.Gamesync.Sessions.{TokenReader, authorized_session, remember_session}
use super_mario_bros_wonder.Gamesync.Expiry.{expiring, expire_session, remove_session}
use super_mario_bros_wonder.Gamesync.Expired.{expire_session_lem}
use super_mario_bros_wonder.Gamesync.Access.{authorized_session-Vouches}
use super_mario_bros_wonder.Gamesync.Calls.{
  Call, perform, run, Remembers, IsOther, segment_of, perform-cases, remember_session-found,
}

perform-none :
    (id : String) (c : Call) (g : Gamesync)
    → Remembers (IsOther id) c
    → get g.sessions id ≡ none
    → get (perform c g).sessions id ≡ none
unfolding perform
perform-none id c g h e = elim (Option-cases (get (perform c g).sessions id)) [
  | inl f ↦ f
  | inr (s, f) ↦ elim (perform-cases c g) [
    | inr (fewer, same) ↦ absurd (differ s (fewer id s f))
    | inl (now, session, k) ↦
        let other : IsOther id session = subst (Remembers (IsOther id)) k h in
        let there : get (remember_session now g session).0.sessions id ≡ some s =
          subst (λ c. get (perform c g).sessions id ≡ some s) k f in
        elim (remember_session-found now g session id s there) [
          | inl (p, q) ↦ absurd (other p)
          | inr (p, q) ↦ absurd (differ s q)
        ]
  ]
]
  where
    differ : (s : GamesyncSession) → get g.sessions id ≢ some s
    differ s f = let both : none ≡ some s = sym e ∙ f in ground arith

run-none :
    (id : String) (calls : List Call) (g : Gamesync)
    → All (Remembers (IsOther id)) calls
    → get g.sessions id ≡ none
    → get (run calls g).sessions id ≡ none
unfolding run
run-none id [] g h e = e
run-none id (c ∷ calls) g (p, h) e = run-none id calls (perform c g) h (perform-none id c g p e)

expire_session-none :
    (g : Gamesync) (r : SessionRegistry) (id : String) (timer : ℕ) (ended : GamesyncSession)
    → expiring g id timer ≡ some ended
    → get (expire_session g r id timer).0.sessions id ≡ none
unfolding remove_session
expire_session-none g r id timer ended e =
    rw (expire_session_lem g r id timer ended e)
      (get-delete g.sessions id id ∙ rw (eq_refl id) refl)

-- After a timer has ended a session, and after any further steps that remember no session under its
-- segment, no call is let in as that session, whatever token it bears and whenever it comes. The
-- condition also leaves out a call of IssueToken for the session that was under way when the timer went
-- off: it stores the session anew.
pub authorized_session-expire_session :
    (v : TokenReader) (unix : ℕ) (g : Gamesync) (r : SessionRegistry) (id : String) (timer : ℕ)
    (ctx : Context) (name : String) (ended session : GamesyncSession) (calls : List Call)
    → expiring g id timer ≡ some ended
    → All (Remembers (IsOther id)) calls
    → authorized_session v unix (run calls (expire_session g r id timer).0) ctx name ≡ some session
    → segment_of session ≢ id
authorized_session-expire_session v unix g r id timer ctx name ended session calls e others h same =
    let state = run calls (expire_session g r id timer).0 in
    let (token, c, t, vouches, found) =
      authorized_session-Vouches v unix state ctx name session h in
    let gone : get state.sessions id ≡ none =
      run-none id calls (expire_session g r id timer).0 others
        (expire_session-none g r id timer ended e) in
    let there : get state.sessions id ≡ some session = ap (get state.sessions) (sym same) ∙ found in
    let both : none ≡ some session = sym gone ∙ there in ground arith
