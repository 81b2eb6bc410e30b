-- ===== src/Gamesync/Access.antt =====
-- gamesync.go: who authorizedSession lets in, and for how long.
use super_mario_bros_wonder.Base.{
  String, ℕ, ℤ, pos, Bool, true, false, ◌||◌, Option, none, some, [], ◌≡◌, refl, sym, ap, ◌∙◌,
  arith, inl, inr, if◌then◌else◌, Bool-cases, eq_iff, get, put, get-put_self, leb_ℤ, ltb_ℤ, negsuc,
  wrap64, to_int64, ◌+ℤ◌, eqb, subst, ◌<◌, ◌+◌,
}
use super_mario_bros_wonder.Names.{last_resource_segment, npln_issuer, npln_tenant_id}
use super_mario_bros_wonder.Auth.{Context, bearer_token}
use super_mario_bros_wonder.Registry.{SessionRegistry}
use super_mario_bros_wonder.Gamesync.{GamesyncSession}
use super_mario_bros_wonder.Gamesync.State.{Gamesync}
use super_mario_bros_wonder.Gamesync.Sessions.{
  number_of, GamesyncAccessClaims, TokenReader, bind, only_if, signed_payload, valid_access_claims,
  verify_gamesync_access_token, token_fits, authorized_session,
}
use super_mario_bros_wonder.Gamesync.Expiry.{
  stream_count, stream_started, schedule_disconnect, expiring, expire_session,
}

pub only_if-eq-some :
    {A : Type 0} (b : Bool) (a c : A) → only_if b a ≡ some c → (b ≡ true) × (a ≡ c)
only_if-eq-some true a c e = (refl, ground arith)
only_if-eq-some false a c e = absurd (ground arith)

pub bind-eq-some :
    {A B : Type 0} (o : Option A) (f : A → Option B) (b : B)
    → bind o f ≡ some b
    → (a : A) × (o ≡ some a) × (f a ≡ some b)
bind-eq-some none f b e = absurd (ground arith)
bind-eq-some (some a) f b e = (a, refl, e)

-- What a token says of the session that it opens: it is signed, unexpired, issued by this server for
-- its tenant, and names the user, the game session and the session.
abbrev pub Vouches : TokenReader → ℕ → String → GamesyncAccessClaims → GamesyncSession → Type 0
Vouches v unix token c session =
    (bind (signed_payload v token) v.decode_access ≡ some c)
    × (leb_ℤ c.expires_at (pos unix) ≡ false)
    × (c.issuer ≡ npln_issuer)
    × (c.tenant_id ≡ npln_tenant_id)
    × (c.subject ≡ session.uid)
    × (c.game_session ≡ session.game_session)
    × (last_resource_segment c.user_session ≡ last_resource_segment session.user_session)

valid_claims :
    (unix : ℕ) (c : GamesyncAccessClaims)
    → valid_access_claims unix c ≡ true
    → (leb_ℤ c.expires_at (pos unix) ≡ false)
      × (c.issuer ≡ npln_issuer)
      × (c.tenant_id ≡ npln_tenant_id)
unfolding valid_access_claims
valid_claims unix c h =
    ground (arith, eq_iff c.issuer npln_issuer, eq_iff c.tenant_id npln_tenant_id)

fitting :
    (c : GamesyncAccessClaims) (name : String) (session : GamesyncSession)
    → token_fits c name session ≡ true
    → (c.subject ≡ session.uid)
      × (c.game_session ≡ session.game_session)
      × (last_resource_segment c.user_session ≡ last_resource_segment session.user_session)
unfolding token_fits
fitting c name session h = ground (
  arith,
  eq_iff session.uid c.subject,
  eq_iff session.game_session c.game_session,
  eq_iff (last_resource_segment session.user_session) (last_resource_segment c.user_session),
)

verified_claims :
    (v : TokenReader) (unix : ℕ) (token : String) (c : GamesyncAccessClaims)
    → verify_gamesync_access_token v unix token ≡ some c
    → (bind (signed_payload v token) v.decode_access ≡ some c) × (valid_access_claims unix c ≡ true)
unfolding verify_gamesync_access_token
verified_claims v unix token c h =
    let (d, decoded, valid) =
      bind-eq-some (bind (signed_payload v token) v.decode_access)
        (λ c. only_if (valid_access_claims unix c) c) c h in
    let (good, same) = only_if-eq-some (valid_access_claims unix d) d c valid in
    (decoded ∙ ap some same, subst (λ k. valid_access_claims unix k ≡ true) same good)

found_session :
    (g : Gamesync) (c : GamesyncAccessClaims) (name : String) (session : GamesyncSession)
    → bind
        (get g.sessions (last_resource_segment c.user_session))
        (λ s. only_if (token_fits c name s) s)
      ≡ some session
    → (get g.sessions (last_resource_segment c.user_session) ≡ some session)
      × (token_fits c name session ≡ true)
found_session g c name session h =
    let (s, found, fits) =
      bind-eq-some (get g.sessions (last_resource_segment c.user_session))
        (λ s. only_if (token_fits c name s) s) session h in
    let (fit, same) = only_if-eq-some (token_fits c name s) s session fits in
    (found ∙ ap some same, subst (λ k. token_fits c name k ≡ true) same fit)

-- A call that is let in bears a token that vouches for the session that it gets, which is stored under
-- the last segment of its own name.
pub authorized_session-Vouches :
    (v : TokenReader) (unix : ℕ) (g : Gamesync) (ctx : Context) (name : String)
    (session : GamesyncSession)
    → authorized_session v unix g ctx name ≡ some session
    → (token : String) × (c : GamesyncAccessClaims) × (bearer_token ctx ≡ some token)
      × Vouches v unix token c session
      × (get g.sessions (last_resource_segment session.user_session) ≡ some session)
unfolding authorized_session
authorized_session-Vouches v unix g ctx name session h =
    let (c, verified, k) =
      bind-eq-some (bind (bearer_token ctx) (verify_gamesync_access_token v unix))
        (λ c.
          bind (get g.sessions (last_resource_segment c.user_session))
            (λ s. only_if (token_fits c name s) s))
        session h in
    let (token, t, d) =
      bind-eq-some (bearer_token ctx) (verify_gamesync_access_token v unix) c verified in
    let (decoded, valid) = verified_claims v unix token c d in
    let (unexpired, issuer, tenant) = valid_claims unix c valid in
    let (found, fits) = found_session g c name session k in
    let (uid, game, segment) = fitting c name session fits in
    (
      token,
      c,
      t,
      (decoded, unexpired, issuer, tenant, uid, game, segment),
      ap (get g.sessions) (sym segment) ∙ found,
    )

-- The open streams of a session are counted from 0.
abbrev Counted : ℤ → Type 0
Counted n = (ltb_ℤ n (pos 0) ≡ false) × (ltb_ℤ n (pos 9223372036854775807) ≡ true)

Counted-next : (n : ℤ) → Counted n → ltb_ℤ (pos 0) (wrap64 (n +ℤ pos 1)) ≡ true
unfolding wrap64 to_int64
Counted-next (pos m) h = ground arith
Counted-next (negsuc m) h = absurd (ground arith)

open_stream :
    (g : Gamesync) (id : String) (timer : ℕ)
    → ltb_ℤ (pos 0) (stream_count g id) ≡ true
    → expiring g id timer ≡ none
unfolding expiring
open_stream g id timer h = rw h refl

either : {A : Type 0} (b : Bool) (o : Option A) → (if b || true then none else o) ≡ none
either true o = refl
either false o = refl

started_count :
    (g : Gamesync) (id : String)
    → stream_count (stream_started g id) id ≡ wrap64 (stream_count g id +ℤ pos 1)
unfolding stream_count stream_started
started_count g id =
    ap number_of (get-put_self g.stream_counts id (wrap64 (stream_count g id +ℤ pos 1)))

abbrev pub scheduled_state : Gamesync → String → Gamesync
scheduled_state g id = record g {
  disconnect_timers = put g.disconnect_timers id g.next_timer;
  next_timer = g.next_timer + 1;
}

pub schedule_disconnect_lem :
    (g : Gamesync) (id : String)
    → ltb_ℤ (pos 0) (stream_count g id) ≡ false
    → schedule_disconnect g id ≡ scheduled_state g id
unfolding schedule_disconnect
schedule_disconnect_lem g id e = rw (e, schedule_disconnect) refl

pub schedule_disconnect_open :
    (g : Gamesync) (id : String)
    → ltb_ℤ (pos 0) (stream_count g id) ≡ true
    → schedule_disconnect g id ≡ g
unfolding schedule_disconnect
schedule_disconnect_open g id e = rw (e, schedule_disconnect) refl

other_timer :
    (g : Gamesync) (id : String) (timer t : ℕ)
    → get g.disconnect_timers id ≡ some t
    → timer < t
    → expiring g id timer ≡ none
unfolding expiring
other_timer g id timer t h k =
    let differs : eqb t timer ≡ false = ground arith in
    rw (h, differs) (either (ltb_ℤ (pos 0) (stream_count g id)) (get g.sessions id))

nothing_expires :
    (g : Gamesync) (r : SessionRegistry) (id : String) (timer : ℕ)
    → expiring g id timer ≡ none
    → expire_session g r id timer ≡ (g, r, [])
unfolding expire_session
nothing_expires g r id timer h = rw (h, expire_session) refl

-- A timer that was made before a stream was opened ends no session once it is, and neither does one
-- after which another was scheduled: nothing changes and nothing is sent. The count of the session's
-- streams is taken to be a number from 0 that can be raised by 1.
pub expire_session-timers :
    (g : Gamesync) (r : SessionRegistry) (id : String) (timer : ℕ)
    → Counted (stream_count g id)
    → timer < g.next_timer
    → (expire_session (stream_started g id) r id timer ≡ (stream_started g id, r, []))
      × (expire_session (schedule_disconnect g id) r id timer ≡ (schedule_disconnect g id, r, []))
expire_session-timers g r id timer h k = (
  nothing_expires (stream_started g id) r id timer (
      open_stream (stream_started g id) id timer
        (ap (ltb_ℤ (pos 0)) (started_count g id) ∙ Counted-next (stream_count g id) h)),
  elim (Bool-cases (ltb_ℤ (pos 0) (stream_count g id))) [
    | inl e ↦
        rw (schedule_disconnect_open g id e)
          (nothing_expires g r id timer (open_stream g id timer e))
    | inr e ↦ rw (schedule_disconnect_lem g id e) (
        nothing_expires (scheduled_state g id) r id timer (
          other_timer (scheduled_state g id) id timer g.next_timer
            (get-put_self g.disconnect_timers id g.next_timer) k))
  ],
)
