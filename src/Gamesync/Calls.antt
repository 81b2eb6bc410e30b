-- ===== src/Gamesync/Calls.antt =====
-- gamesync.go, gamesync_store.go: what the calls and the timers do to the tables of the server, step
-- by step. IssueToken is the steps `fixed`, `remembered` and `scheduled`, KeepUserSession `subscribed`
-- and `opened`, then `answered`, then `counted_down`, `scheduled` and `unsubscribed`. The reads change
-- nothing.
use super_mario_bros_wonder.Base.{
  String, ℕ, none, some, List, [], ◌∷◌, ◌≡◌, ◌≢◌, ◌⊎◌, ◌∙◌, refl, sym, ap, inl, inr, Bool-cases,
  Option-cases, Result-cases, get, get-delete-eq-some, get-delete_ne, get-put-eq-some, get-put_ne,
  All, subst, ltb_ℤ, pos,
}
use super_mario_bros_wonder.Names.{last_resource_segment}
use super_mario_bros_wonder.Proto.{GameSession, Timestamp}
use super_mario_bros_wonder.Registry.{SessionRegistry}
use super_mario_bros_wonder.Gamesync.{GamesyncSession}
use super_mario_bros_wonder.Gamesync.State.{
  Gamesync, table, WriteOperation, DefermentOperation, RequestType, echo_request, update_target,
  delete_target, no_request,
}
use super_mario_bros_wonder.Gamesync.Streams.{add_subscriber, remove_subscriber, at_subscriber}
use super_mario_bros_wonder.Gamesync.Keep.{answer_request}
use super_mario_bros_wonder.Gamesync.Sessions.{
  remember_session, number_session, store_session, filled,
}
use super_mario_bros_wonder.Gamesync.Writes.{write_documents, transact, commit}
use super_mario_bros_wonder.Gamesync.Issue.{Issuer, seed_of, initialize_fixed_data}
use super_mario_bros_wonder.Gamesync.Expiry.{
  stream_count, expire_session, expiring, stream_started, count_down, schedule_disconnect,
  remove_session,
}
use super_mario_bros_wonder.Gamesync.Access.{schedule_disconnect_lem, schedule_disconnect_open}

pub data Call : Type 0 where
  remembered : Timestamp → GamesyncSession → Call
  written : Timestamp → GamesyncSession → List WriteOperation → List DefermentOperation → Call
  expired : SessionRegistry → String → ℕ → Call
  opened : String → Call
  counted_down : String → Call
  scheduled : String → Call
  fixed : Issuer → Timestamp → GameSession → Call
  subscribed : String → ℕ → Call
  unsubscribed : String → ℕ → Call
  answered : String → ℕ → GamesyncSession → RequestType → Call

unfoldable pub perform : Call → Gamesync → Gamesync
perform (remembered now session) g = (remember_session now g session).0
perform (written now session writes deferred) g = (write_documents now g session writes deferred).0
perform (expired r id timer) g = (expire_session g r id timer).0
perform (opened id) g = stream_started g id
perform (counted_down id) g = count_down g id
perform (scheduled id) g = schedule_disconnect g id
perform (fixed env now gs) g = (initialize_fixed_data env now g gs).0
perform (subscribed game_session stream) g = add_subscriber g game_session stream
perform (unsubscribed game_session stream) g = remove_subscriber g game_session stream
perform (answered game_session stream session request) g =
    (answer_request g game_session stream session request).0

unfoldable pub run : List Call → Gamesync → Gamesync
run [] g = g
run (c ∷ calls) g = run calls (perform c g)

-- What holds of the session that a step remembers, and of the segment whose timer goes off.
abbrev pub Concerns : (GamesyncSession → Type 0) → (String → Type 0) → Call → Type 0
Concerns P Q (remembered now session) = P session
Concerns P Q (written now session writes deferred) = Unit
Concerns P Q (expired r id timer) = Q id
Concerns P Q (opened id) = Unit
Concerns P Q (counted_down id) = Unit
Concerns P Q (scheduled id) = Unit
Concerns P Q (fixed env now gs) = Unit
Concerns P Q (subscribed game_session stream) = Unit
Concerns P Q (unsubscribed game_session stream) = Unit
Concerns P Q (answered game_session stream session asked) = Unit

abbrev pub Remembers : (GamesyncSession → Type 0) → Call → Type 0
Remembers P = Concerns P (λ id. Unit {0})

abbrev pub segment_of : GamesyncSession → String
segment_of session = last_resource_segment session.user_session

-- A session with another segment.
abbrev pub IsOther : String → GamesyncSession → Type 0
IsOther id session = segment_of session ≢ id

-- A step that adds no session and keeps the counters.
abbrev pub Quiet : Gamesync → Gamesync → Type 0
Quiet g g' =
    ((k : String) (s : GamesyncSession) → get g'.sessions k ≡ some s → get g.sessions k ≡ some s)
    × (g'.next_sequence ≡ g.next_sequence)

-- A step that keeps the sessions and the counters.
abbrev Same : Gamesync → Gamesync → Type 0
Same g g' = (g'.sessions ≡ g.sessions) × (g'.next_sequence ≡ g.next_sequence)

write-Same :
    (now : Timestamp) (g : Gamesync) (session : GamesyncSession) (writes : List WriteOperation)
    (deferred : List DefermentOperation)
    → Same g (write_documents now g session writes deferred).0
unfolding write_documents commit
write-Same now g session writes deferred =
    elim (Result-cases (transact now g session writes deferred)) [
      | inr (c, e) ↦ rw (e, write_documents) (refl, refl)
      | inl (done, e) ↦ rw (e, write_documents) (refl, refl)
    ]

expire-Quiet :
    (g : Gamesync) (r : SessionRegistry) (id : String) (timer : ℕ)
    → Quiet g (expire_session g r id timer).0
unfolding expire_session remove_session
expire-Quiet g r id timer = elim (Option-cases (expiring g id timer)) [
  | inl e ↦ rw (e, expire_session) ((λ k s h. h), refl)
  | inr (session, e) ↦
      rw (e, expire_session) ((λ k s h. get-delete-eq-some g.sessions id k h), refl)
]

schedule-Same : (g : Gamesync) (id : String) → Same g (schedule_disconnect g id)
schedule-Same g id = elim (Bool-cases (ltb_ℤ (pos 0) (stream_count g id))) [
  | inl e ↦ rw (schedule_disconnect_open g id e) (refl, refl)
  | inr e ↦ rw (schedule_disconnect_lem g id e) (refl, refl)
]

fixed-Same :
    (env : Issuer) (now : Timestamp) (g : Gamesync) (gs : GameSession)
    → Same g (initialize_fixed_data env now g gs).0
unfolding initialize_fixed_data
fixed-Same env now g gs = elim (Option-cases (get (table g.documents gs.name) "docs/__gs/f")) [
  | inr (d, e) ↦ rw (e, initialize_fixed_data) (refl, refl)
  | inl e ↦ elim (Option-cases (seed_of env)) [
    | inl f ↦ rw (e, f, initialize_fixed_data) (refl, refl)
    | inr (seed, f) ↦ rw (e, f, initialize_fixed_data) (refl, refl)
  ]
]

answer-Same :
    (g : Gamesync) (game_session : String) (stream : ℕ) (session : GamesyncSession)
    (asked : RequestType)
    → Same g (answer_request g game_session stream session asked).0
unfolding answer_request at_subscriber
answer-Same g game_session stream session (echo_request echo) = (refl, refl)
answer-Same g game_session stream session (update_target none) = (refl, refl)
answer-Same g game_session stream session (update_target (some target)) = (refl, refl)
answer-Same g game_session stream session (delete_target name) = (refl, refl)
answer-Same g game_session stream session no_request = (refl, refl)

-- A step remembers a session, or is a timer that goes off, or keeps the sessions and the counters.
data Effect (c : Call) (g : Gamesync) : Type 0 where
  stores : (now : Timestamp) (session : GamesyncSession) → c ≡ remembered now session → Effect c g
  ends : (r : SessionRegistry) (id : String) (timer : ℕ) → c ≡ expired r id timer → Effect c g
  same : Same g (perform c g) → Effect c g

effect : (c : Call) (g : Gamesync) → Effect c g
unfolding perform stream_started count_down add_subscriber remove_subscriber
effect (remembered now session) g = stores now session refl
effect (written now session writes deferred) g = same (write-Same now g session writes deferred)
effect (expired r id timer) g = ends r id timer refl
effect (opened id) g = same (refl, refl)
effect (counted_down id) g = same (refl, refl)
effect (scheduled id) g = same (schedule-Same g id)
effect (fixed env now gs) g = same (fixed-Same env now g gs)
effect (subscribed game_session stream) g = same (refl, refl)
effect (unsubscribed game_session stream) g = same (refl, refl)
effect (answered game_session stream session asked) g =
    same (answer-Same g game_session stream session asked)

pub perform-cases :
    (c : Call) (g : Gamesync)
    → ((now : Timestamp) × (session : GamesyncSession) × (c ≡ remembered now session))
      ⊎ Quiet g (perform c g)
unfolding perform
perform-cases c g = elim (effect c g) [
  | stores now session e ↦ inl (now, session, e)
  | ends r id timer e ↦ inr (subst (λ k. Quiet g (perform k g)) (sym e) (expire-Quiet g r id timer))
  | same (e, f) ↦ inr ((λ k s h. ap (λ m. get m k) (sym e) ∙ h), f)
]

remember-kept :
    (now : Timestamp) (g : Gamesync) (session : GamesyncSession) (id : String)
    → IsOther id session
    → get (remember_session now g session).0.sessions id ≡ get g.sessions id
unfolding remember_session store_session number_session
remember-kept now g session id h = elim (Option-cases (get g.sessions (segment_of session))) [
  | inl e ↦ rw (e, remember_session) (get-put_ne g.sessions (segment_of session) id _ h)
  | inr (previous, e) ↦ rw (e, remember_session) (get-put_ne g.sessions (segment_of session) id _ h)
]

expire-kept :
    (g : Gamesync) (r : SessionRegistry) (j : String) (timer : ℕ) (id : String)
    → j ≢ id
    → get (expire_session g r j timer).0.sessions id ≡ get g.sessions id
unfolding expire_session remove_session
expire-kept g r j timer id h = elim (Option-cases (expiring g j timer)) [
  | inl e ↦ rw (e, expire_session) refl
  | inr (session, e) ↦ rw (e, expire_session) (get-delete_ne g.sessions j id h)
]

-- A step that neither remembers a session under a segment nor is a timer of it.
abbrev pub Leaves : String → Call → Type 0
Leaves id = Concerns (IsOther id) (λ j. j ≢ id)

perform-kept :
    (id : String) (c : Call) (g : Gamesync)
    → Leaves id c
    → get (perform c g).sessions id ≡ get g.sessions id
unfolding perform
perform-kept id c g h = elim (effect c g) [
  | stores now session e ↦
      subst (λ k. get (perform k g).sessions id ≡ get g.sessions id) (sym e)
        (remember-kept now g session id (subst (Leaves id) e h))
  | ends r j timer e ↦
      subst (λ k. get (perform k g).sessions id ≡ get g.sessions id) (sym e)
        (expire-kept g r j timer id (subst (Leaves id) e h))
  | same (e, f) ↦ ap (λ m. get m id) e
]

pub run-kept :
    (id : String) (calls : List Call) (g : Gamesync)
    → All (Leaves id) calls
    → get (run calls g).sessions id ≡ get g.sessions id
unfolding run
run-kept id [] g h = refl
run-kept id (c ∷ calls) g (p, h) = run-kept id calls (perform c g) h ∙ perform-kept id c g p

found :
    (g : Gamesync) (session full : GamesyncSession) (k : String) (s : GamesyncSession)
    → full.game_session ≡ session.game_session
    → ((segment_of session ≡ k) × (full ≡ s))
      ⊎ ((segment_of session ≢ k) × (get g.sessions k ≡ some s))
    → ((segment_of session ≡ k) × (s.game_session ≡ session.game_session))
      ⊎ ((segment_of session ≢ k) × (get g.sessions k ≡ some s))
found g session full k s e (inl (p, q)) =
    inl (p, ap (λ (t : GamesyncSession). t.game_session) (sym q) ∙ e)
found g session full k s e (inr p) = inr p

-- What is found after a session is remembered: it, under its segment, or what was there before.
pub remember_session-found :
    (now : Timestamp) (g : Gamesync) (session : GamesyncSession) (k : String) (s : GamesyncSession)
    → get (remember_session now g session).0.sessions k ≡ some s
    → ((segment_of session ≡ k) × (s.game_session ≡ session.game_session))
      ⊎ ((segment_of session ≢ k) × (get g.sessions k ≡ some s))
unfolding remember_session store_session number_session
remember_session-found now g session k s h =
    elim (Option-cases (get g.sessions (segment_of session))) [
      | inl e ↦
          let f = rw (e, remember_session) at h in
          found g session (filled (number_session now g session none).1) k s refl
            (get-put-eq-some g.sessions (segment_of session) k f)
      | inr (previous, e) ↦
          let f = rw (e, remember_session) at h in
          found g session (filled (number_session now g session (some previous)).1) k s refl
            (get-put-eq-some g.sessions (segment_of session) k f)
    ]
