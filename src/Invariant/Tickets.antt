-- ===== src/Invariant/Tickets.antt =====
-- matchmaking.go: the completion of matchmaking tickets and the invariant.
use super_mario_bros_wonder.Base.{
  String, ℕ, pos, true, some, List, [], ◌∷◌, ◌==◌, ◌+◌, ◌<◌, ◌≡◌, refl, subst, inl, inr, get,
  get-put-eq-some, arith, Bool-cases, Option-cases, length, All, All-map, All-append, ◌%◌, wrap32,
  to_int32, ◌≤ℤ◌,
}
use super_mario_bros_wonder.Proto.{UserDefinition, MatchmakingTicket, is_session_active}
use super_mario_bros_wonder.Names.{last_resource_segment}
use super_mario_bros_wonder.Names.Segments.{IsSegment}
use super_mario_bros_wonder.Auth.{Context}
use super_mario_bros_wonder.Registry.{SessionRegistry, PublicMatchSession}
use super_mario_bros_wonder.Server.{Server, Settings, Env, Clock, set_pool}
use super_mario_bros_wonder.Matchmaking.{Pool, add_public_match_members, public_match_pool_key}
use super_mario_bros_wonder.Pools.{
  pool_at, set_pool_at, pool_keys, is_joined, has_room, required_slots, fresh_session,
  new_public_match_session, select_public_match_session, session_path, session_id,
}
use super_mario_bros_wonder.Pools.Select.{
  find_session-eq-some, select_cases, pool_at-made, public_match_capacity_bounds,
}
use super_mario_bros_wonder.Tickets.{
  place_pool, place_ticket, complete_stored, complete_matchmaking_ticket, ticket_uid,
}
use super_mario_bros_wonder.Invariant.{IsKnown, IsGood, IsServer, int32_max}
use super_mario_bros_wonder.Invariant.Pooled.{IsOpenTo, enter-IsGood}
use super_mario_bros_wonder.Invariant.Writes.{
  set_pool-IsRegistry, set_pool-IsKnown, set_pool-IsKnown_self,
}
use super_mario_bros_wonder.Invariant.Placed.{
  pool_at-IsGood, set_pool_at-IsServer, note_ticket-IsServer, solo-cons,
}

pool_keys-IsKnown :
    (s : Server) (key : String) → IsServer s → All (IsKnown s.registry) (pool_keys s key)
unfolding pool_keys
pool_keys-IsKnown s key inv = elim (Option-cases (get s.sessions_by_pool key)) [
  | inl e ↦ rw e tt
  | inr (ids, e) ↦ rw e (inv.listed key ids e)
]

module _ (settings : Settings) (now : ℕ) (s : Server) (config : String)
    (definitions : List UserDefinition) (bound : settings.match_max_participants < int32_max) where
  fresh-IsGood :
      (id pool_key gs_name : String)
      → last_resource_segment gs_name ≡ id
      → IsGood id (record {
        session = fresh_session settings now gs_name config definitions;
        pool_key = pool_key;
        members = [];
      })
  unfolding fresh_session
  fresh-IsGood id pool_key gs_name e =
      let b = public_match_capacity_bounds settings config bound in
      record {
        session = record {
          named = e;
          sized = record { counted = refl; fits = omega (arith, b.0); range = b.1 };
          live = inl refl;
        };
        aligned = tt;
        distinct = tt;
      }

  made-IsServer :
      (pool_key : String)
      → IsServer s
      → IsServer (new_public_match_session settings now s config definitions pool_key).0
  unfolding new_public_match_session
  made-IsServer pool_key inv =
      let n = (s.next_match_id + 1) % 18446744073709551616 in
      let gs_name = session_path (session_id now n) in
      let id = last_resource_segment gs_name in
      let fresh = fresh_session settings now gs_name config definitions in
      let pool : PublicMatchSession = record { pool_key = pool_key; members = [] } in
      let good = fresh-IsGood id pool_key gs_name refl in
      let kept =
        λ (i : String) (k : IsKnown s.registry i). set_pool-IsKnown s.registry id fresh pool i k in
      record {
        registry =
            set_pool-IsRegistry s.registry id fresh pool inv.registry good.session good.aligned
              good.distinct;
        listed = λ key ids h. elim (get-put-eq-some s.sessions_by_pool pool_key key h) [
          | inl (_, e) ↦ subst (All (IsKnown (set_pool s.registry id fresh pool))) e (
              All-append _ (pool_keys s pool_key) (id ∷ [])
                (All-map kept (pool_keys s pool_key) (pool_keys-IsKnown s pool_key inv))
                (set_pool-IsKnown_self s.registry id fresh pool, tt))
          | inr (_, old) ↦ All-map kept ids (inv.listed key ids old)
        ];
        placed = λ t i h. kept i (inv.placed t i h);
        solo = inv.solo;
        solo_creation = inv.solo_creation;
      }

-- A session that is open to a user, by its key.
abbrev pub OpensAt : SessionRegistry → String → String → Type 0
OpensAt r uid id = (p : Pool) × (pool_at r id ≡ some p) × IsOpenTo uid p

joined-OpensAt :
    (r : SessionRegistry) (uid id : String) → is_joined uid (pool_at r id) ≡ true → OpensAt r uid id
joined-OpensAt r uid id h = elim (Option-cases (pool_at r id)) [
  | inl e ↦ cc (rw e at h)
  | inr (p, e) ↦ (p, e, inl (rw e at h))
]

room-OpensAt :
    (r : SessionRegistry) (uid id : String)
    → has_room (pos 1) (pool_at r id) ≡ true
    → OpensAt r uid id
room-OpensAt r uid id h = elim (Option-cases (pool_at r id)) [
  | inl e ↦ cc (rw e at h)
  | inr (p, e) ↦ (p, e, inr (rw e at h))
]

one_slot : (d : UserDefinition) → required_slots (d ∷ []) ≡ pos 1
unfolding required_slots to_int32
one_slot d = refl

empty-has_room :
    (p : Pool)
    → pos 1 ≤ℤ p.session.max_participant_count
    → p.session.current_participant_count ≡ pos 0
    → is_session_active p.session.state ≡ true
    → has_room (pos 1) (some p) ≡ true
unfolding wrap32 to_int32
empty-has_room p b c a = rw c (ground (arith, a, b))

-- The session that a ticket with one definition is given is one that its user is in already, or
-- one with room: always open, whichever way it was chosen. The configured maximum is below
-- 2^31 - 1.
pub select-OpensAt :
    (settings : Settings) (now : ℕ) (s : Server) (config : String)
    (definitions : List UserDefinition) (uid : String)
    → settings.match_max_participants < int32_max
    → length definitions ≡ 1
    → let chosen = select_public_match_session settings now s config definitions uid in
      OpensAt chosen.0.registry uid chosen.1
select-OpensAt settings now s config definitions uid bound one =
    let (d, same) = solo-cons one in
    select_cases settings now s config definitions uid (λ c. OpensAt c.0.registry uid c.1)
      (λ id e. joined-OpensAt s.registry uid id (find_session-eq-some s.registry _ _ id e))
      (λ id _ e.
        room-OpensAt s.registry uid id
          (rw (same, one_slot d) at (find_session-eq-some s.registry _ _ id e)))
      (λ _ _.
        let (p, e, _, m, c, a) =
          pool_at-made settings now s config definitions
            (public_match_pool_key config definitions) in
        (
          p,
          e,
          inr (empty-has_room p (rw m (public_match_capacity_bounds settings config bound).0) c a),
        ))

pub select-IsServer :
    (settings : Settings) (now : ℕ) (s : Server) (config : String)
    (definitions : List UserDefinition) (uid : String)
    → settings.match_max_participants < int32_max
    → IsServer s
    → IsServer (select_public_match_session settings now s config definitions uid).0
select-IsServer settings now s config definitions uid bound inv =
    select_cases settings now s config definitions uid (λ c. IsServer c.0) (λ _ _. inv)
      (λ _ _ _. inv) (λ _ _. made-IsServer settings now s config definitions bound _ inv)

place-IsServer :
    (env : Env) (clock : Clock) (s : Server) (ticket_id id : String) (stored : MatchmakingTicket)
    (include : List String) (uid : String)
    → IsServer s
    → IsSegment uid
    → length stored.user_definitions ≡ 1
    → OpensAt s.registry uid id
    → IsServer (place_ticket clock env (s, id) ticket_id stored include uid).0
unfolding place_ticket place_pool
place-IsServer env clock s ticket_id id stored include uid inv seg one (p, e, o) =
    let (d, same) = solo-cons one in
    let good =
      enter-IsGood env.codec clock id p d uid seg (pool_at-IsGood s.registry id inv.registry e) o in
    let q = add_public_match_members env.codec clock p (d ∷ []) uid in
    rw (e, same, place_ticket)
      (note_ticket-IsServer (record s { registry = set_pool_at s.registry id q }) ticket_id id
        (set_pool_at-IsServer s id q inv good) (set_pool-IsKnown_self s.registry id q.session _))

-- Completing a ticket keeps the invariant of the whole state.
pub complete-IsServer :
    (env : Env) (clock : Clock) (s : Server) (ctx : Context) (name : String) (include : List String)
    → env.settings.match_max_participants < int32_max
    → ((t : MatchmakingTicket)
        → get s.tickets (last_resource_segment name) ≡ some t
        → IsSegment (ticket_uid ctx t.user_definitions))
    → IsServer s
    → IsServer (complete_matchmaking_ticket env clock s ctx name include).0
unfolding complete_matchmaking_ticket complete_stored
complete-IsServer env clock s ctx name include bound seg inv =
    let id = last_resource_segment name in
    elim (Option-cases (get s.tickets id)) [
      | inl e ↦ rw (e, complete_matchmaking_ticket) inv
      | inr (t, e) ↦
          let uid = ticket_uid ctx t.user_definitions in
          elim (Bool-cases (uid == "")) [
            | inl f ↦ rw (e, f, complete_matchmaking_ticket) inv
            | inr f ↦ elim (Option-cases (get s.ticket_sessions id)) [
              | inr (key, g) ↦ rw (e, f, g, complete_matchmaking_ticket, complete_stored) inv
              | inl g ↦
                  rw (e, f, g, complete_matchmaking_ticket, complete_stored)
                    (placed_after t uid (seg t e) (inv.solo id t e))
            ]
          ]
    ]
  where
    placed_after :
        (t : MatchmakingTicket) (uid : String)
        → IsSegment uid
        → length t.user_definitions ≡ 1
        → IsServer
            (place_ticket clock env
              (select_public_match_session env.settings clock.now s t.matchmaking_config
                t.user_definitions uid)
              (last_resource_segment name)
              t
              include
              uid).0
    placed_after t uid u one =
        let chosen =
          select_public_match_session env.settings clock.now s t.matchmaking_config
            t.user_definitions uid in
        place-IsServer env clock chosen.0 (last_resource_segment name) chosen.1 t include uid
          (select-IsServer env.settings clock.now s t.matchmaking_config t.user_definitions uid
            bound inv)
          u one
          (select-OpensAt env.settings clock.now s t.matchmaking_config t.user_definitions uid bound
            one)
