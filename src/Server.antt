-- ===== src/Server.antt =====
-- The state that the matchmaking services share, and what a call is given: matchmaking.go's
-- matchmakerServer and gameSessionServer over one sessionRegistry. Each handler holds the lock of
-- the registry while it reads and writes, so a call is one step of the state.
use super_mario_bros_wonder.Base.{String, ℕ, List, [], Dict, Result, put}
use super_mario_bros_wonder.Proto.{GameSession, MatchmakingTicket, CreationTicket}
use super_mario_bros_wonder.Tokens.{Codec}
use super_mario_bros_wonder.Auth.{Context, Verifier}
use super_mario_bros_wonder.Registry.{SessionRegistry, PublicMatchSession}

pub record Server : Type 0 where
  pub registry : SessionRegistry
  pub tickets : Dict MatchmakingTicket
  pub ticket_sessions : Dict String  -- the key of the ticket's session
  pub sessions_by_pool : Dict (List String)  -- the keys of the pool's sessions
  pub next_ticket_id : ℕ  -- uint64
  pub next_match_id : ℕ  -- nextSessionID of matchmakerServer, uint64
  pub creation_tickets : Dict CreationTicket
  pub next_creation_id : ℕ  -- nextTicketID of gameSessionServer, uint64
  pub next_game_id : ℕ  -- nextSessionID of gameSessionServer, uint64

-- The settings, after envInt and envOr; `match_max_participants` is 0 if it is not set.
pub record Settings : Type 0 where
  pub match_max_participants : ℕ
  pub gamesession_host : String
  pub gamesession_port : ℕ

-- The readings of the clock in a call: `now` in nanoseconds for names and creation times, `unix`
-- in seconds for tokens.
pub record Clock : Type 0 where
  pub now : ℕ
  pub unix : ℕ

-- What the code calls and does not implement. `friend_uids` is the registry's function field.
pub record Env : Type 0 where
  pub settings : Settings
  pub codec : Codec
  pub verifier : Verifier
  pub friend_uids : Context → String → Result (List String)

unfoldable pub new_server : Server
new_server = record {
  registry = record { sessions = []; pooled = [] };
  tickets = [];
  ticket_sessions = [];
  sessions_by_pool = [];
  next_ticket_id = 0;
  next_match_id = 0;
  creation_tickets = [];
  next_creation_id = 0;
  next_game_id = 0;
}

abbrev pub set_session : SessionRegistry → String → GameSession → SessionRegistry
set_session r id gs = record r { sessions = put r.sessions id gs }

-- A pooled session and its members are written together.
abbrev pub set_pool : SessionRegistry → String → GameSession → PublicMatchSession → SessionRegistry
set_pool r id gs pool = record { sessions = put r.sessions id gs; pooled = put r.pooled id pool }
