-- ===== src/Invariant.antt =====
-- What holds of the shared state between two calls.
pub mod Pooled
pub mod Writes
pub mod Departures
pub mod Placed
pub mod Tickets
pub mod Rooms
pub mod Opened
pub mod Steps
use super_mario_bros_wonder.Base.{
  String, ℕ, suc, ℤ, pos, Bool, false, Option, some, List, [], length, to_int32, ◌≤ℤ◌, ◌<◌,
  pos_part, ◌≡◌, ◌⊎◌, get, All, is_some, true,
}
use super_mario_bros_wonder.Proto.{
  UserSession, GameSession, GameSessionState, MatchmakingTicket, CreationTicket,
}
use super_mario_bros_wonder.Names.{last_resource_segment}
use super_mario_bros_wonder.Registry.{SessionRegistry, PublicMatchSession}
use super_mario_bros_wonder.Server.{Server}
use super_mario_bros_wonder.Matchmaking.{Pool}
use super_mario_bros_wonder.Matchmaking.Members.{Aligned, Distinct}

-- The greatest `int32`. A maximum below it leaves room for one more in every count.
abbrev pub int32_max : ℕ
int32_max = 2147483647

-- The count is that of the user sessions, and there are no more of them than the maximum.
pub record IsSized (gs : GameSession) : Type 0 where
  pub counted : gs.current_participant_count ≡ pos (length gs.user_sessions)
  pub fits : gs.current_participant_count ≤ℤ gs.max_participant_count
  pub range : pos_part gs.max_participant_count < int32_max

-- A session is active, or it is closed: terminated, empty and not to be joined.
abbrev pub IsClosed : GameSession → Type 0
IsClosed gs =
    (gs.state ≡ GameSessionState.terminated)
    × (gs.user_sessions ≡ [])
    × (gs.can_participate ≡ false)

abbrev pub IsLive : GameSession → Type 0
IsLive gs = (gs.state ≡ GameSessionState.active) ⊎ IsClosed gs

pub record IsSession (id : String) (gs : GameSession) : Type 0 where
  pub named : last_resource_segment gs.name ≡ id
  pub sized : IsSized gs
  pub live : IsLive gs

-- A pool's members are in step with the user sessions of its session.
pub record IsPooled (r : SessionRegistry) (id : String) (p : PublicMatchSession) : Type 0 where
  pub session : GameSession
  pub stored : get r.sessions id ≡ some session
  pub aligned : Aligned p.members session.user_sessions
  pub distinct : Distinct p.members

pub record IsRegistry (r : SessionRegistry) : Type 0 where
  pub sessions : (id : String) (gs : GameSession) → get r.sessions id ≡ some gs → IsSession id gs
  pub pooled : (id : String) (p : PublicMatchSession) → get r.pooled id ≡ some p → IsPooled r id p

-- What the invariant says of a pooled session that is there.
pub record IsGood (id : String) (p : Pool) : Type 0 where
  pub session : IsSession id p.session
  pub aligned : Aligned p.members p.session.user_sessions
  pub distinct : Distinct p.members

abbrev pub IsKnown : SessionRegistry → String → Type 0
IsKnown r id = is_some (get r.pooled id) ≡ true

-- A ticket has one definition, and pools and placed tickets name pooled sessions.
pub record IsServer (s : Server) : Type 0 where
  pub registry : IsRegistry s.registry
  pub listed :
      (key : String) (ids : List String)
      → get s.sessions_by_pool key ≡ some ids
      → All (IsKnown s.registry) ids
  pub placed : (ticket id : String) → get s.ticket_sessions ticket ≡ some id → IsKnown s.registry id
  pub solo :
      (ticket : String) (t : MatchmakingTicket)
      → get s.tickets ticket ≡ some t
      → length t.user_definitions ≡ 1
  pub solo_creation :
      (ticket : String) (t : CreationTicket)
      → get s.creation_tickets ticket ≡ some t
      → length t.user_definitions ≡ 1
