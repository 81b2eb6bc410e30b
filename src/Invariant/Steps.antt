-- ===== src/Invariant/Steps.antt =====
-- The calls of the services as steps of the shared state.
use super_mario_bros_wonder.Base.{
  String, suc, Option, none, List, [], ◌∷◌, ◌==◌, ◌+◌, ◌%◌, ◌<◌, ◌≡◌, refl, sym, ap, ◌∙◌, inl, inr,
  get, put, delete, get-put-eq-some, get-delete-eq-some, arith, Bool-cases, Option-cases, length,
  map, All-map, ok, >>=-eq-ok, after_last_slash,
}
use super_mario_bros_wonder.Proto.{UserDefinition, MatchmakingTicket, CreationTicket}
use super_mario_bros_wonder.Names.{last_resource_segment, user_id_from_path}
use super_mario_bros_wonder.Names.Segments.{
  IsSegment, last_resource_segment-IsSegment, user_id_from_path-eq,
}
use super_mario_bros_wonder.Auth.{Context, authenticated_npln_uid, uid_from_ctx}
use super_mario_bros_wonder.Registry.{depart}
use super_mario_bros_wonder.Sessions.{Friends, validate_caller_definitions}
use super_mario_bros_wonder.Server.{Server, Env, Clock, new_server}
use super_mario_bros_wonder.Tickets.{
  or_empty, owned_definition, prepare_ticket, store_ticket, ticket_uid, complete_matchmaking_ticket,
  authorize_friend_pool,
}
use super_mario_bros_wonder.Rooms.{prepare_creation, complete_creation_ticket, is_succeeded}
use super_mario_bros_wonder.Service.{join_session}
use super_mario_bros_wonder.Invariant.{IsServer, int32_max}
use super_mario_bros_wonder.Invariant.Departures.{depart-IsRegistry, depart-IsKnown}
use super_mario_bros_wonder.Invariant.Tickets.{complete-IsServer}
use super_mario_bros_wonder.Invariant.Rooms.{join_session-IsServer}
use super_mario_bros_wonder.Invariant.Opened.{room_key, open_ticket-IsServer}

length-map : {A B : Type 0} (f : A → B) (xs : List A) → length (map f xs) ≡ length xs
length-map f [] = refl
length-map f (x ∷ xs) = ap suc (length-map f xs)

validate-solo :
    (ds : List UserDefinition) (uid : String) {u : Unit}
    → validate_caller_definitions ds uid ≡ ok u
    → length ds ≡ 1
unfolding validate_caller_definitions
validate-solo [] uid h = cc
validate-solo (d ∷ []) uid h = refl
validate-solo (d ∷ e ∷ ds) uid h = cc

prepare_ticket-solo :
    (env : Env) (clock : Clock) (r : Server) (ctx : Context) (supplied : Option MatchmakingTicket)
    (t : MatchmakingTicket)
    → prepare_ticket env clock r ctx supplied ≡ ok t
    → length t.user_definitions ≡ 1
unfolding prepare_ticket
prepare_ticket-solo env clock r ctx supplied t h =
    let given = (or_empty supplied).user_definitions in
    let (uid, _, h1) = >>=-eq-ok (authenticated_npln_uid env.verifier clock.unix ctx) _ h in
    let (_, v, h2) = >>=-eq-ok (validate_caller_definitions given uid) _ h1 in
    let (_, _, h3) = >>=-eq-ok (authorize_friend_pool r.registry _ _ uid) _ h2 in
    let same : t.user_definitions ≡ map (owned_definition ctx uid) given = ground (arith, h3) in
    rw (same, length-map (owned_definition ctx uid) given) (validate-solo given uid v)

prepare_creation-solo :
    (ctx : Context) (uid id : String) (given t : CreationTicket)
    → prepare_creation ctx uid id given ≡ ok t
    → length t.user_definitions ≡ 1
unfolding prepare_creation
prepare_creation-solo ctx uid id given t h =
    let (_, v, h1) = >>=-eq-ok (validate_caller_definitions given.user_definitions uid) _ h in
    let same : t.user_definitions ≡ map (owned_definition ctx uid) given.user_definitions =
      ground (arith, h1) in
    rw (same, length-map (owned_definition ctx uid) given.user_definitions)
      (validate-solo given.user_definitions uid v)

IsSegment-empty : IsSegment ""
unfolding after_last_slash
IsSegment-empty = refl

-- The uid of a ticket is a segment, if that of the metadata is.
ticket_uid-IsSegment :
    (ctx : Context) (ds : List UserDefinition)
    → IsSegment (uid_from_ctx ctx)
    → IsSegment (ticket_uid ctx ds)
unfolding ticket_uid
ticket_uid-IsSegment ctx ds h = elim (Bool-cases (uid_from_ctx ctx == "")) [
  | inr e ↦ rw e h
  | inl e ↦ rw e (first ds)
]
  where
    first :
        (xs : List UserDefinition)
        → IsSegment (let t : String = elim xs [ [] ↦ "" | d ∷ _ ↦ user_id_from_path d.user ] in t)
    first [] = IsSegment-empty
    first (d ∷ ds) = rw (user_id_from_path-eq d.user) (last_resource_segment-IsSegment d.user)

-- What a call does to the shared state while it holds the lock, with what the call has
-- established before: a state of a premise may be an earlier one.
pub data Step (env : Env) : Server → Server → Type 0 where
  store_match :
      (clock : Clock) (earlier : Server) (ctx : Context) (supplied : Option MatchmakingTicket)
      (t : MatchmakingTicket) (s : Server)
      → prepare_ticket env clock earlier ctx supplied ≡ ok t
      → Step env s (store_ticket clock s t).0
  complete_match :
      (clock : Clock) (s : Server) (ctx : Context) (name : String) (include : List String)
      → IsSegment (uid_from_ctx ctx)
      → Step env s (complete_matchmaking_ticket env clock s ctx name include).0
  cancel_match :
      (s : Server) (name : String)
      → Step env s (record s { tickets = delete s.tickets (last_resource_segment name) })
  count_creation :
      (s : Server)
      → Step env s (record s { next_creation_id = (s.next_creation_id + 1) % 18446744073709551616 })
  store_creation :
      (ctx : Context) (uid id : String) (given t : CreationTicket) (s : Server)
      → prepare_creation ctx uid id given ≡ ok t
      → Step env s (record s { creation_tickets = put s.creation_tickets id t })
  complete_creation :
      (clock : Clock) (s : Server) (ctx : Context) (name : String) (include : List String)
      → get s.registry.pooled (room_key clock s) ≡ none
      → Step env s (complete_creation_ticket env clock s ctx name include).0
  join :
      (clock : Clock) (s : Server) (uid : String) (friends : Friends) (id password : String)
      (ds : List UserDefinition) (include : List String)
      → IsSegment uid
      → Step env s (join_session env clock s uid friends id password ds include).0
  leave :
      (s : Server) (game_session user_session : String)
      → Step env s (record s { registry = depart s.registry game_session user_session })

complete_creation-IsServer :
    (env : Env) (clock : Clock) (s : Server) (ctx : Context) (name : String) (include : List String)
    → get s.registry.pooled (room_key clock s) ≡ none
    → IsServer s
    → IsServer (complete_creation_ticket env clock s ctx name include).0
unfolding complete_creation_ticket
complete_creation-IsServer env clock s ctx name include fresh inv =
    let id = last_resource_segment name in
    elim (Option-cases (get s.creation_tickets id)) [
      | inl e ↦ rw (e, complete_creation_ticket) inv
      | inr (t, e) ↦
          let uid = ticket_uid ctx t.user_definitions in
          elim (Bool-cases (uid == "")) [
            | inl f ↦ rw (e, f, complete_creation_ticket) inv
            | inr f ↦ elim (Bool-cases (is_succeeded t.state)) [
              | inl g ↦ rw (e, f, g, complete_creation_ticket) inv
              | inr g ↦
                  rw (e, f, g, complete_creation_ticket)
                    (open_ticket-IsServer env clock s ctx id t include uid
                      (inv.solo_creation id t e) fresh inv)
            ]
          ]
    ]

pub Step-IsServer :
    {env : Env} {s s' : Server}
    → env.settings.match_max_participants < int32_max
    → Step env s s'
    → IsServer s
    → IsServer s'
unfolding store_ticket
Step-IsServer {env} b (store_match clock earlier ctx supplied t s p) inv = record {
  registry = inv.registry;
  listed = inv.listed;
  placed = inv.placed;
  solo = λ k x h. elim (get-put-eq-some s.tickets _ k h) [
    | inl (_, e) ↦
        ap (λ (y : MatchmakingTicket). length y.user_definitions) (sym e)
        ∙ prepare_ticket-solo env clock earlier ctx supplied t p
    | inr (_, old) ↦ inv.solo k x old
  ];
  solo_creation = inv.solo_creation;
}
Step-IsServer {env} b (complete_match clock s ctx name include seg) inv =
    complete-IsServer env clock s ctx name include b
      (λ t _. ticket_uid-IsSegment ctx t.user_definitions seg) inv
Step-IsServer b (cancel_match s name) inv = record {
  registry = inv.registry;
  listed = inv.listed;
  placed = inv.placed;
  solo = λ k x h. inv.solo k x (get-delete-eq-some s.tickets _ k h);
  solo_creation = inv.solo_creation;
}
Step-IsServer b (count_creation s) inv = record {
  registry = inv.registry;
  listed = inv.listed;
  placed = inv.placed;
  solo = inv.solo;
  solo_creation = inv.solo_creation;
}
Step-IsServer b (store_creation ctx uid id given t s p) inv = record {
  registry = inv.registry;
  listed = inv.listed;
  placed = inv.placed;
  solo = inv.solo;
  solo_creation = λ k x h. elim (get-put-eq-some s.creation_tickets id k h) [
    | inl (_, e) ↦
        ap (λ (y : CreationTicket). length y.user_definitions) (sym e)
        ∙ prepare_creation-solo ctx uid id given t p
    | inr (_, old) ↦ inv.solo_creation k x old
  ];
}
Step-IsServer {env} b (complete_creation clock s ctx name include fresh) inv =
    complete_creation-IsServer env clock s ctx name include fresh inv
Step-IsServer {env} b (join clock s uid friends id password ds include seg) inv =
    join_session-IsServer env clock s uid friends id password ds include seg inv
Step-IsServer b (leave s game_session user_session) inv = record {
  registry = depart-IsRegistry s.registry game_session user_session inv.registry;
  listed = λ key ids h.
      All-map (λ i k. depart-IsKnown s.registry game_session user_session i k) ids
        (inv.listed key ids h);
  placed = λ t i h. depart-IsKnown s.registry game_session user_session i (inv.placed t i h);
  solo = inv.solo;
  solo_creation = inv.solo_creation;
}

pub data Reach (env : Env) (s : Server) : Server → Type 0 where
  here : Reach env s s
  next : {t u : Server} → Reach env s t → Step env t u → Reach env s u

pub new_server-IsServer : IsServer new_server
unfolding new_server get
new_server-IsServer = record {
  registry = record { sessions = λ id gs h. cc; pooled = λ id p h. cc };
  listed = λ key ids h. cc;
  placed = λ t id h. cc;
  solo = λ k t h. cc;
  solo_creation = λ k t h. cc;
}

-- After any sequence of steps on a new server, every session has as many participants as it counts
-- and no more than its maximum, a session that is not active is terminated, empty and not to be
-- joined, and the members of every pool are distinct users in step with its session's active users.
-- The maximum that is configured is below 2^31 - 1; the steps assume that a caller's uid holds no
-- slash and that a room is not opened under the key of a pooled session.
pub Reach-IsServer :
    {env : Env} {s : Server}
    → env.settings.match_max_participants < int32_max
    → Reach env new_server s
    → IsServer s
Reach-IsServer b here = new_server-IsServer
Reach-IsServer b (next r st) = Step-IsServer b st (Reach-IsServer b r)
