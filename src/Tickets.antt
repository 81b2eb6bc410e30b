-- ===== src/Tickets.antt =====
-- matchmaking.go: matchmaking tickets. A call that takes the lock twice is given what the other
-- calls do to the state in between, as a function. A streaming call answers the messages that it
-- sends; its state does not depend on how many of them arrive.
pub mod Complete
pub mod Placed
use super_mario_bros_wonder.Base.{
  String, ℕ, ℤ, Bool, true, false, not, ◌&&◌, ◌||◌, Option, none, some, List, [], ◌∷◌, ◌==◌, ◌⊕◌,
  ◌+◌, ◌%◌, if◌then◌else◌, decimal, Dict, get, put, delete, map, Result, ok, err, Code,
  invalid_argument, not_found, permission_denied, ◌>>=◌, ◌>>◌, refuse_if, has_prefix,
}
use super_mario_bros_wonder.Proto.{
  UserDefinition, GameSession, MatchedUserSession, MatchmakingTicket, TicketState,
  is_session_active,
}
use super_mario_bros_wonder.Names.{
  last_resource_segment, user_id_from_path, concrete_resource, npln_tenant, user_path,
}
use super_mario_bros_wonder.Auth.{Context, authenticated_npln_uid, uid_from_ctx}
use super_mario_bros_wonder.Registry.{SessionRegistry, PublicMatchMember, session_has_uid}
use super_mario_bros_wonder.Sessions.{
  validate_caller_definitions, ticket_owned_by, ticket_friend_room, include_matchmaking_id_token,
}
use super_mario_bros_wonder.Server.{Server, Env, Clock}
use super_mario_bros_wonder.Matchmaking.{
  Pool, public_match_has_uid, clone_user_definition_for_caller, add_public_match_members,
}
use super_mario_bros_wonder.Pools.{pool_at, set_pool_at, select_public_match_session}

abbrev active_session : Option GameSession → Result GameSession
active_session none = err not_found
active_session (some gs) = if is_session_active gs.state then ok gs else err not_found

unfoldable pub authorize_friend_pool :
    SessionRegistry → String → List UserDefinition → String → Result (Unit {0})
authorize_friend_pool r config definitions uid =
    let room = ticket_friend_room definitions in
    if not (has_prefix (last_resource_segment config) "Friend")
    then refuse_if (not (room == "")) invalid_argument
    else if room == ""
    then err invalid_argument
    else do
      gs ← active_session (get r.sessions room)
      refuse_if (not (session_has_uid (some gs) uid)) permission_denied

abbrev pub empty_ticket : MatchmakingTicket
empty_ticket = record {
  name = "";
  matchmaking_config = "";
  user_definitions = [];
  state = TicketState.unspecified;
  matched_user_sessions = [];
  game_session = none;
}

abbrev pub or_empty : Option MatchmakingTicket → MatchmakingTicket
or_empty none = empty_ticket
or_empty (some t) = t

-- The caller's definition, under the caller's own name.
abbrev pub owned_definition : Context → String → UserDefinition → UserDefinition
owned_definition ctx uid d = record (clone_user_definition_for_caller ctx d) {
  user = user_path uid;
}

-- The checks of CreateMatchmakingTicket, and the ticket that they let through.
unfoldable pub prepare_ticket :
    Env → Clock → Server → Context → Option MatchmakingTicket → Result MatchmakingTicket
prepare_ticket env clock s ctx supplied = do
  uid ← authenticated_npln_uid env.verifier clock.unix ctx
  let t = or_empty supplied
  let config = concrete_resource "matchmakingConfigs" t.matchmaking_config
  validate_caller_definitions t.user_definitions uid
  let definitions = map (owned_definition ctx uid) t.user_definitions
  authorize_friend_pool s.registry config definitions uid
  ok (record t {
    matchmaking_config = config;
    user_definitions = definitions;
    state = TicketState.searching;
  })

-- Naming and storing a ticket that has passed.
unfoldable pub store_ticket : Clock → Server → MatchmakingTicket → Server × MatchmakingTicket
store_ticket clock s t =
    let n = (s.next_ticket_id + 1) % 18446744073709551616 in
    let name =
      npln_tenant
      ⊕ ("/matchmakingTickets" ⊕ ("/" ⊕ ("ticket-" ⊕ (decimal clock.now ⊕ ("-" ⊕ decimal n))))) in
    let named = record t { name = name } in
    (
      record s { next_ticket_id = n; tickets = put s.tickets (last_resource_segment name) named },
      named,
    )

abbrev after_store : Server × MatchmakingTicket → Server × Result MatchmakingTicket
after_store (s, t) = (s, ok t)

unfoldable pub create_matchmaking_ticket :
    Env
    → Clock
    → (Server → Server)
    → Server
    → Context
    → Option MatchmakingTicket
    → Server × Result MatchmakingTicket
create_matchmaking_ticket env clock between s ctx supplied =
    elim (prepare_ticket env clock s ctx supplied) [
      | err c ↦ (s, err c)
      | ok t ↦ after_store (store_ticket clock (between s) t)
    ]

unfoldable pub matched_member : String → List String → PublicMatchMember → MatchedUserSession
matched_member caller_uid include m = record {
  user_definition = m.definition;
  user_session = m.user_session;
  matchmaking_id_token =
      if (user_id_from_path m.definition.user == caller_uid)
        && include_matchmaking_id_token include m.definition.user caller_uid
      then m.match_token
      else "";
}

unfoldable pub public_match_response :
    MatchmakingTicket → Pool → String → List String → MatchmakingTicket
public_match_response stored pool caller_uid include = record stored {
  state = TicketState.succeeded;
  game_session = some pool.session;
  matched_user_sessions = map (matched_member caller_uid include) pool.members;
}

-- The uid of the metadata, or else that of the ticket's first definition.
unfoldable pub ticket_uid : Context → List UserDefinition → String
ticket_uid ctx definitions =
    let uid = uid_from_ctx ctx in
    if not (uid == "") then uid else elim definitions [ [] ↦ "" | d ∷ _ ↦ user_id_from_path d.user ]

-- A ticket that has its session keeps it, while the caller is in it and it is active.
unfoldable pub resume_ticket :
    SessionRegistry → MatchmakingTicket → String → List String → String → Option MatchmakingTicket
resume_ticket r stored id include uid = elim (pool_at r id) [
  | none ↦ none
  | some pool ↦
      if not (public_match_has_uid pool.members uid) || not (is_session_active pool.session.state)
      then none
      else some (public_match_response stored pool uid include)
]

-- The pool with the ticket's users in it, written back.
unfoldable pub place_pool :
    Server
    → String
    → String
    → MatchmakingTicket
    → List String
    → String
    → Pool
    → Server × Option MatchmakingTicket
place_pool s ticket_id id stored include uid pool = (
  record s {
    registry = set_pool_at s.registry id pool;
    ticket_sessions = put s.ticket_sessions ticket_id id;
  },
  some (public_match_response stored pool uid include),
)

unfoldable pub place_ticket :
    Clock
    → Env
    → Server × String
    → String
    → MatchmakingTicket
    → List String
    → String
    → Server × Option MatchmakingTicket
place_ticket clock env (s, id) ticket_id stored include uid = elim (pool_at s.registry id) [
  | none ↦ (s, none)
  | some pool ↦
      place_pool s ticket_id id stored include uid
        (add_public_match_members env.codec clock pool stored.user_definitions uid)
]

unfoldable pub complete_stored :
    Env
    → Clock
    → Server
    → String
    → MatchmakingTicket
    → List String
    → String
    → Server × Option MatchmakingTicket
complete_stored env clock s ticket_id stored include uid = elim (get s.ticket_sessions ticket_id) [
  | some id ↦ (s, resume_ticket s.registry stored id include uid)
  | none ↦
      place_ticket clock env
        (select_public_match_session env.settings clock.now s stored.matchmaking_config
          stored.user_definitions uid)
        ticket_id stored include uid
]

unfoldable pub complete_matchmaking_ticket :
    Env → Clock → Server → Context → String → List String → Server × Option MatchmakingTicket
complete_matchmaking_ticket env clock s ctx requested_name include =
    let ticket_id = last_resource_segment requested_name in
    elim (get s.tickets ticket_id) [
      | none ↦ (s, none)
      | some stored ↦
          let uid = ticket_uid ctx stored.user_definitions in
          if uid == "" then (s, none) else complete_stored env clock s ticket_id stored include uid
    ]

abbrev definitions_of : Option MatchmakingTicket → List UserDefinition
definitions_of none = []
definitions_of (some t) = t.user_definitions

abbrev in_phase : MatchmakingTicket → TicketState → MatchmakingTicket
in_phase t state = record t { state = state; matched_user_sessions = []; game_session = none }

-- The messages of the stream: two phases and the answer, or one failure.
unfoldable pub track_messages : String → Option MatchmakingTicket → List MatchmakingTicket
track_messages name none = record empty_ticket { name = name; state = TicketState.failed } ∷ []
track_messages name (some t) =
    in_phase t TicketState.searching ∷ in_phase t TicketState.placing ∷ t ∷ []

abbrev sent : String → Server × Option MatchmakingTicket → Server × Result (List MatchmakingTicket)
sent name (s, found) = (s, ok (track_messages name found))

-- Only the owner of a ticket passes.
unfoldable pub check_owner : Env → Clock → Server → Context → String → Result String
check_owner env clock s ctx name = do
  uid ← authenticated_npln_uid env.verifier clock.unix ctx
  let stored = get s.tickets (last_resource_segment name)
  refuse_if (not (ticket_owned_by (definitions_of stored) uid)) permission_denied
  ok uid

unfoldable pub track_matchmaking_ticket :
    Env
    → Clock
    → (Server → Server)
    → Server
    → Context
    → String
    → List String
    → Server × Result (List MatchmakingTicket)
track_matchmaking_ticket env clock between s ctx name include =
    elim (check_owner env clock s ctx name) [
      | err c ↦ (s, err c)
      | ok _ ↦ sent name (complete_matchmaking_ticket env clock (between s) ctx name include)
    ]

unfoldable pub cancel_matchmaking_ticket :
    Env → Clock → Server → Context → String → Server × Result (Unit {0})
cancel_matchmaking_ticket env clock s ctx name = elim (check_owner env clock s ctx name) [
  | err c ↦ (s, err c)
  | ok _ ↦ (record s { tickets = delete s.tickets (last_resource_segment name) }, ok tt)
]
