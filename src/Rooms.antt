-- ===== src/Rooms.antt =====
-- matchmaking.go: gameSessionServer's creation tickets, by which a player opens a room.
use super_mario_bros_wonder.Base.{
  String, ℕ, ℤ, pos, suc, Bool, true, false, not, ◌&&◌, ◌||◌, Option, none, some, List, [], ◌∷◌,
  ◌==◌, ◌⊕◌, ◌+◌, ◌%◌, if◌then◌else◌, decimal, get, put, map, Result, ok, err, permission_denied,
  ◌>>=◌, ◌>>◌, refuse_if, has_prefix, length, to_int32, ltb_ℤ, eqb_ℤ,
}
use super_mario_bros_wonder.Proto.{
  UserDefinition, UserSession, UserSessionState, GameSession, GameSessionState, MatchedUserSession,
  CreationTicket, CreationTicketState,
}
use super_mario_bros_wonder.Names.{last_resource_segment, concrete_resource, npln_tenant, user_path}
use super_mario_bros_wonder.Tokens.{
  Codec, mint_gss_match_token, gamesync_attr_json, gamesync_latency_json,
}
use super_mario_bros_wonder.Auth.{Context, authenticated_npln_uid}
use super_mario_bros_wonder.Registry.{session_has_uid}
use super_mario_bros_wonder.Sessions.{
  validate_caller_definitions, ticket_owned_by, include_matchmaking_id_token, matched_for_caller,
}
use super_mario_bros_wonder.Server.{Server, Env, Settings, Clock, set_session}
use super_mario_bros_wonder.Matchmaking.{
  clone_user_definition_for_caller, public_match_capacity, merge_matchmaking_session_properties,
  named_definition, definition_uid,
}
use super_mario_bros_wonder.Pools.{session_id, session_path}
use super_mario_bros_wonder.Tickets.{owned_definition, ticket_uid}

abbrev pub empty_creation : CreationTicket
empty_creation = record {
  name = "";
  matchmaking_config = "";
  game_session = none;
  user_definitions = [];
  state = CreationTicketState.unspecified;
  matched_user_sessions = [];
}

abbrev pub or_empty_creation : Option CreationTicket → CreationTicket
or_empty_creation none = empty_creation
or_empty_creation (some t) = t

abbrev creation_id : ℕ → ℕ → String
creation_id now n = "gsct-" ⊕ (decimal now ⊕ ("-" ⊕ decimal n))

-- The ticket with its name and the caller's definition, if the definition is the caller's.
unfoldable pub prepare_creation : Context → String → String → CreationTicket → Result CreationTicket
prepare_creation ctx uid id t = do
  validate_caller_definitions t.user_definitions uid
  ok (record t {
    name = npln_tenant ⊕ ("/gameSessionCreationTickets" ⊕ ("/" ⊕ id));
    matchmaking_config = concrete_resource "matchmakingConfigs" t.matchmaking_config;
    user_definitions = map (owned_definition ctx uid) t.user_definitions;
    state = CreationTicketState.pending;
    matched_user_sessions = [];
  })

-- The counter moves before the definitions are checked, in a lock of its own.
unfoldable pub create_creation_ticket :
    Env
    → Clock
    → (Server → Server)
    → Server
    → Context
    → Option CreationTicket
    → Server × Result CreationTicket
create_creation_ticket env clock between s ctx supplied =
    elim (authenticated_npln_uid env.verifier clock.unix ctx) [
      | err c ↦ (s, err c)
      | ok uid ↦
          let n = (s.next_creation_id + 1) % 18446744073709551616 in
          let id = creation_id clock.now n in
          let counted = record s { next_creation_id = n } in
          elim (prepare_creation ctx uid id (or_empty_creation supplied)) [
            | err c ↦ (counted, err c)
            | ok t ↦
                let s' = between counted in
                (record s' { creation_tickets = put s'.creation_tickets id t }, ok t)
          ]
    ]

module _ (codec : Codec) (clock : Clock) where
  -- One round of the loop over the definitions; `d` has been cloned for the caller.
  unfoldable pub seat : String → String → ℕ → UserDefinition → UserSession
  seat gs_name caller_uid sequence d =
      let named = named_definition d caller_uid in
      record {
        name =
            gs_name
            ⊕ ("/userSessions" ⊕ ("/" ⊕ ("us-" ⊕ (decimal clock.now ⊕ ("-" ⊕ decimal sequence)))));
        user = named.user;
        latency_data = named.latency_data;
        create_time = clock.now;
        state = UserSessionState.active;
        team = named.team;
        attributes = named.attributes;
      }

  unfoldable pub seat_match :
      String → String → List String → ℕ → UserDefinition → MatchedUserSession
  seat_match gs_name caller_uid include sequence d =
      let named = named_definition d caller_uid in
      let us = seat gs_name caller_uid sequence d in
      record {
        user_definition = named;
        user_session = us.name;
        matchmaking_id_token =
            if include_matchmaking_id_token include named.user caller_uid
            then mint_gss_match_token codec clock.unix (definition_uid d caller_uid) npln_tenant
                gs_name us.name named.team (gamesync_attr_json codec named.attributes)
                (gamesync_latency_json codec named.latency_data)
            else "";
      }

  unfoldable pub seats : String → String → ℕ → List UserDefinition → List UserSession
  seats gs_name caller_uid sequence [] = []
  seats gs_name caller_uid sequence (d ∷ ds) =
      seat gs_name caller_uid sequence d ∷ seats gs_name caller_uid (suc sequence) ds

  unfoldable pub seat_matches :
      String → String → List String → ℕ → List UserDefinition → List MatchedUserSession
  seat_matches gs_name caller_uid include sequence [] = []
  seat_matches gs_name caller_uid include sequence (d ∷ ds) =
      seat_match gs_name caller_uid include sequence d
      ∷ seat_matches gs_name caller_uid include (suc sequence) ds

abbrev pub empty_session : GameSession
empty_session = record {
  name = "";
  max_participant_count = pos 0;
  current_participant_count = pos 0;
  can_participate = false;
  is_public = false;
  password = "";
  state = GameSessionState.unspecified;
  host = "";
  port = pos 0;
  create_time = 0;
  properties = none;
  user_sessions = [];
}

abbrev pub or_empty_session : Option GameSession → GameSession
or_empty_session none = empty_session
or_empty_session (some gs) = gs

-- int32(len(definitions)), at least one
unfoldable pub participant_count : List UserDefinition → ℤ
participant_count ds = let n = to_int32 (length ds) in if ltb_ℤ n (pos 1) then pos 1 else n

-- The maximum asked for, or else the configuration's, raised to the number of participants.
unfoldable pub room_capacity : Settings → String → ℤ → ℤ → ℤ
room_capacity settings config requested count =
    let chosen = public_match_capacity settings config in
    if eqb_ℤ requested (pos 0) then if ltb_ℤ chosen count then count else chosen else requested

unfoldable pub open_room :
    Env → ℕ → String → String → GameSession → ℤ → ℤ → List UserSession → GameSession
open_room env now gs_name config requested capacity count users = record {
  name = gs_name;
  max_participant_count = capacity;
  current_participant_count = count;
  can_participate = true;
  is_public =
      not (has_prefix (last_resource_segment config) "Friend") && (requested.password == "");
  password = requested.password;
  state = GameSessionState.active;
  host = env.settings.gamesession_host;
  port = to_int32 env.settings.gamesession_port;
  create_time = now;
  properties = some (merge_matchmaking_session_properties config requested.properties);
  user_sessions = users;
}

abbrev pub or_caller_definition : String → List UserDefinition → List UserDefinition
or_caller_definition caller_uid [] =
    record { user = user_path caller_uid; attributes = none; latency_data = none; team = "" } ∷ []
or_caller_definition caller_uid (d ∷ ds) = d ∷ ds

-- The first completion of a pending ticket opens the room. The counter has moved also when the
-- room is refused.
unfoldable pub open_ticket :
    Env
    → Clock
    → Server
    → Context
    → String
    → CreationTicket
    → List String
    → String
    → Server × Option CreationTicket
open_ticket env clock s ctx ticket_id stored include caller_uid =
    let definitions =
      map (clone_user_definition_for_caller ctx)
        (or_caller_definition caller_uid stored.user_definitions) in
    let n = (s.next_game_id + 1) % 18446744073709551616 in
    let gs_name = session_path (session_id clock.now n) in
    let counted = record s { next_game_id = n } in
    let requested = or_empty_session stored.game_session in
    let count = participant_count definitions in
    let capacity =
      room_capacity env.settings stored.matchmaking_config requested.max_participant_count count in
    let session =
      open_room env clock.now gs_name stored.matchmaking_config requested capacity count
        (seats env.codec clock gs_name caller_uid 1 definitions) in
    let answer = record stored {
      user_definitions = map (λ d. named_definition d caller_uid) definitions;
      state = CreationTicketState.succeeded;
      matched_user_sessions = seat_matches env.codec clock gs_name caller_uid include 1 definitions;
      game_session = some session;
    } in
    if ltb_ℤ capacity count || ltb_ℤ (pos 64) capacity then (counted, none) else (
      record counted {
        registry = set_session s.registry (last_resource_segment gs_name) session;
        creation_tickets = put s.creation_tickets ticket_id answer;
      },
      some answer,
    )

-- Once it has succeeded, a ticket answers its session as it is now, to a member of it.
unfoldable pub reopen_ticket :
    Env → Clock → Server → CreationTicket → List String → String → Option CreationTicket
reopen_ticket env clock s stored include caller_uid =
    elim (get s.registry.sessions
      (last_resource_segment (or_empty_session stored.game_session).name)) [
        | none ↦ none
        | some gs ↦
            if not (session_has_uid (some gs) caller_uid)
            then none
            else some (record stored {
              game_session = some gs;
              matched_user_sessions = matched_for_caller env.codec clock.unix gs caller_uid include;
            })
      ]

abbrev pub is_succeeded : CreationTicketState → Bool
is_succeeded CreationTicketState.succeeded = true
is_succeeded _ = false

unfoldable pub complete_creation_ticket :
    Env → Clock → Server → Context → String → List String → Server × Option CreationTicket
complete_creation_ticket env clock s ctx requested_name include =
    let ticket_id = last_resource_segment requested_name in
    elim (get s.creation_tickets ticket_id) [
      | none ↦ (s, none)
      | some stored ↦
          let caller_uid = ticket_uid ctx stored.user_definitions in
          if caller_uid == ""
          then (s, none)
          else if is_succeeded stored.state
          then (s, reopen_ticket env clock s stored include caller_uid)
          else open_ticket env clock s ctx ticket_id stored include caller_uid
    ]

abbrev creation_definitions : Option CreationTicket → List UserDefinition
creation_definitions none = []
creation_definitions (some t) = t.user_definitions

unfoldable pub check_creation_owner : Env → Clock → Server → Context → String → Result String
check_creation_owner env clock s ctx name = do
  uid ← authenticated_npln_uid env.verifier clock.unix ctx
  let stored = get s.creation_tickets (last_resource_segment name)
  refuse_if (not (ticket_owned_by (creation_definitions stored) uid)) permission_denied
  ok uid

abbrev creation_message : String → Option CreationTicket → CreationTicket
creation_message name none = record empty_creation {
  name = name;
  state = CreationTicketState.failed;
}
creation_message name (some t) = t

abbrev sent_creation : String → Server × Option CreationTicket → Server × Result CreationTicket
sent_creation name (s, found) = (s, ok (creation_message name found))

unfoldable pub track_creation_ticket :
    Env
    → Clock
    → (Server → Server)
    → Server
    → Context
    → String
    → List String
    → Server × Result CreationTicket
track_creation_ticket env clock between s ctx name include =
    elim (check_creation_owner env clock s ctx name) [
      | err c ↦ (s, err c)
      | ok _ ↦ sent_creation name (complete_creation_ticket env clock (between s) ctx name include)
    ]
