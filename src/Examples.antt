-- ===== src/Examples.antt =====
-- Small inputs on which the theorems are applied, and runs of the code on them.
pub mod Core
pub mod Calls
pub mod Documents
pub mod Datagrams
pub mod Probes
pub mod Streams
pub mod Issued
use super_mario_bros_wonder.Base.{
  String, ℕ, pos, Bool, true, false, Option, none, some, List, [], ◌∷◌, Result, ok, err,
}
use super_mario_bros_wonder.Proto.{
  UserDefinition, MatchmakingTicket, TicketState, GameSession, GameSessionState, UserSession,
  UserSessionState,
}
use super_mario_bros_wonder.Names.{npln_issuer, npln_tenant_id}
use super_mario_bros_wonder.Auth.{Context, Claims}
use super_mario_bros_wonder.Server.{Server, Env, Clock, new_server}
use super_mario_bros_wonder.Tickets.{
  empty_ticket, prepare_ticket, store_ticket, complete_matchmaking_ticket,
}

-- A payload is its own subject, and every signature verifies.
abbrev pub env : Env
env = record {
  settings = record { match_max_participants = 8; gamesession_host = "h"; gamesession_port = 7 };
  codec = record { marshal = λ _. some "{}"; sign = λ _ _. some "j" };
  verifier = record {
    verify = λ _ _ _. true;
    decode = λ payload. some (record {
      subject = payload;
      issuer = npln_issuer;
      expires = pos 2000;
      tenant = npln_tenant_id;
    });
  };
  friend_uids = λ _ uid. ok (uid ∷ "bob" ∷ []);
}

abbrev pub clock : Clock
clock = record { now = 5; unix = 1000 }

abbrev pub ann : Context
ann = record { authorization = "Bearer h.ann.s" ∷ []; uid = "ann" ∷ [] }

abbrev pub one_definition : List UserDefinition
one_definition =
    record { user = "users/current"; attributes = none; latency_data = none; team = "" } ∷ []

abbrev pub supplied : MatchmakingTicket
supplied = record empty_ticket {
  matchmaking_config = "matchmakingConfigs/Course";
  user_definitions = one_definition;
}

abbrev pub matched_definition : UserDefinition
matched_definition = record {
  user = "tenants/t-ba973ec6-lp1/users/ann";
  attributes = none;
  latency_data = none;
  team = "";
}

abbrev pub ticket : MatchmakingTicket
ticket = record empty_ticket {
  matchmaking_config = "tenants/t-ba973ec6-lp1/matchmakingConfigs/Course";
  user_definitions = matched_definition ∷ [];
  state = TicketState.searching;
}

abbrev pub named_ticket : MatchmakingTicket
named_ticket = record ticket { name = "tenants/t-ba973ec6-lp1/matchmakingTickets/ticket-5-1" }

abbrev pub searching : Server
unfolding store_ticket
searching = (store_ticket clock new_server ticket).0

abbrev pub ticket_name : String
ticket_name = "matchmakingTickets/ticket-5-1"

abbrev pub placed : Server
unfolding complete_matchmaking_ticket
placed = (complete_matchmaking_ticket env clock searching ann ticket_name []).0

-- A room with one user in it, and a server that holds it.
abbrev pub seated : UserSession
seated = record {
  name = "gameSessions/gs-1/userSessions/us-1";
  user = "users/ann";
  latency_data = none;
  create_time = 3;
  state = UserSessionState.active;
  team = "";
  attributes = none;
}

abbrev pub room : GameSession
room = record {
  name = "gameSessions/gs-1";
  max_participant_count = pos 4;
  current_participant_count = pos 1;
  can_participate = true;
  is_public = true;
  password = "pw";
  state = GameSessionState.active;
  host = "h";
  port = pos 7;
  create_time = 3;
  properties = none;
  user_sessions = seated ∷ [];
}

abbrev pub house : Server
unfolding new_server
house = record new_server { registry = record { sessions = ("gs-1", room) ∷ []; pooled = [] } }
