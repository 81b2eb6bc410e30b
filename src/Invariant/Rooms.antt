-- ===== src/Invariant/Rooms.antt =====
-- session_service.go: joining a session and the invariant.
use super_mario_bros_wonder.Base.{
  String, true, false, none, some, List, ◌+◌, ◌<◌, ◌≡◌, subst, inl, inr, get, arith, Bool-cases,
  Option-cases, length, length-append, to_int32_small, wrap32, leb_ℤ, ok, Result-cases,
}
use super_mario_bros_wonder.Proto.{UserDefinition, GameSession, GameSessionState}
use super_mario_bros_wonder.Names.Segments.{IsSegment}
use super_mario_bros_wonder.Registry.{SessionRegistry, session_has_uid}
use super_mario_bros_wonder.Sessions.{Friends, room_visible}
use super_mario_bros_wonder.Sessions.Visible.{IsVisible-sound}
use super_mario_bros_wonder.Server.{Server, Env, Clock}
use super_mario_bros_wonder.Matchmaking.{Pool}
use super_mario_bros_wonder.Pools.{pool_at, join_pool}
use super_mario_bros_wonder.Service.{
  append_user, admit, check_entry, join_session, joining_definition,
}
use super_mario_bros_wonder.Invariant.{IsSession, IsServer}
use super_mario_bros_wonder.Invariant.Pooled.{IsOpenTo, enter-IsGood}
use super_mario_bros_wonder.Invariant.Writes.{set_session-IsRegistry}
use super_mario_bros_wonder.Invariant.Placed.{pool_at-eq-some, pool_at-IsGood, set_pool_at-IsServer}

-- What the checks on entry establish.
pub record IsEntry (gs : GameSession) : Type 0 where
  pub active : gs.state ≡ GameSessionState.active
  pub room : leb_ℤ gs.max_participant_count gs.current_participant_count ≡ false

append_user-IsSession :
    (clock : Clock) (id : String) (gs : GameSession) (d : UserDefinition)
    → IsSession id gs
    → IsEntry gs
    → IsSession id (append_user clock gs d)
unfolding append_user
append_user-IsSession clock id gs d v e =
    let n = length gs.user_sessions in
    let small : n + 1 < 2147483648 =
      ground (arith, v.sized.counted, v.sized.fits, v.sized.range, e.room) in
    rw (length-append gs.user_sessions, to_int32_small (n + 1) small)
      (record {
        named = v.named;
        sized = record {
          counted = rw (length-append gs.user_sessions);
          fits = ground (arith, v.sized.counted, v.sized.fits, v.sized.range, e.room);
          range = v.sized.range;
        };
        live = inl e.active;
      })

entry-IsOpenTo :
    (id : String) (p : Pool) (uid : String)
    → IsSession id p.session
    → IsEntry p.session
    → IsOpenTo uid p
unfolding wrap32
entry-IsOpenTo id p uid v e =
    let n = length p.session.user_sessions in
    inr (
      ground (
        arith,
        v.sized.counted,
        v.sized.fits,
        v.sized.range,
        e.room,
        e.active,
        to_int32_small (n + 1),
      ))

unpooled :
    (r : SessionRegistry) (id : String) (gs : GameSession)
    → get r.sessions id ≡ some gs
    → pool_at r id ≡ none
    → get r.pooled id ≡ none
unfolding pool_at join_pool
unpooled r id gs e h = elim (Option-cases (get r.pooled id)) [
  | inl f ↦ f
  | inr (pm, f) ↦ cc (rw (e, f, join_pool) at h)
]

admit-IsServer :
    (env : Env) (clock : Clock) (s : Server) (id : String) (gs : GameSession) (uid : String)
    (ds : List UserDefinition)
    → IsSegment uid
    → IsServer s
    → get s.registry.sessions id ≡ some gs
    → IsEntry gs
    → IsServer (admit env clock s id gs uid ds).0
unfolding admit
admit-IsServer env clock s id gs uid ds seg inv e entry =
    let v = inv.registry.sessions id gs e in
    let d = joining_definition uid ds in
    elim (Option-cases (pool_at s.registry id)) [
      | inl f ↦
          rw (f, admit)
            (record {
              registry =
                  set_session-IsRegistry s.registry id _ inv.registry
                    (append_user-IsSession clock id gs d v entry) (unpooled s.registry id gs e f);
              listed = inv.listed;
              placed = inv.placed;
              solo = inv.solo;
              solo_creation = inv.solo_creation;
            })
      | inr (p, f) ↦
          let same : gs ≡ p.session = cc (e, (pool_at-eq-some s.registry id f).0) in
          let good = pool_at-IsGood s.registry id inv.registry f in
          rw (f, admit)
            (set_pool_at-IsServer s id _ inv (
              enter-IsGood env.codec clock id p d uid seg good
                (entry-IsOpenTo id p uid good.session (subst IsEntry same entry))))
    ]

-- An admission has passed the checks: the session is active, open and has a place.
join_session-IsEntry :
    (gs : GameSession) (uid : String) (friends : Friends) (password : String)
    → room_visible (some gs) uid friends ≡ true
    → check_entry gs password ≡ ok tt
    → IsEntry gs
unfolding check_entry
join_session-IsEntry gs uid friends password seen passed = record {
  active = (IsVisible-sound gs uid friends seen).active;
  room = ground (arith, passed);
}

-- Joining a session keeps the invariant of the whole state, whether a pool keeps the session or not
-- and whatever the answer is.
pub join_session-IsServer :
    (env : Env) (clock : Clock) (s : Server) (uid : String) (friends : Friends)
    (id password : String) (ds : List UserDefinition) (include : List String)
    → IsSegment uid
    → IsServer s
    → IsServer (join_session env clock s uid friends id password ds include).0
unfolding join_session
join_session-IsServer env clock s uid friends id password ds include seg inv =
    elim (Option-cases (get s.registry.sessions id)) [
      | inl e ↦ rw (e, join_session) inv
      | inr (gs, e) ↦ elim (Bool-cases (room_visible (some gs) uid friends)) [
        | inr f ↦ rw (e, f, join_session) inv
        | inl f ↦ elim (Bool-cases (session_has_uid (some gs) uid)) [
          | inl g ↦ rw (e, f, g, join_session) inv
          | inr g ↦ elim (Result-cases (check_entry gs password)) [
            | inr (c, h) ↦ rw (e, f, g, h, join_session) inv
            | inl (u, h) ↦
                rw (e, f, g, h, join_session)
                  (admit-IsServer env clock s id gs uid ds seg inv e
                    (join_session-IsEntry gs uid friends password f h))
          ]
        ]
      ]
    ]
