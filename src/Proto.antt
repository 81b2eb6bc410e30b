-- ===== src/Proto.antt =====
-- The protobuf messages of proto/common and proto/matchmaking that the services keep and answer,
-- with the fields that the code reads or writes. A message that Go holds by pointer and may be nil
-- is an `Option`; the elements of a message list and of a message map are never nil on the wire.
use super_mario_bros_wonder.Base.{String, ℕ, ℤ, Bool, false, Option, List, Dict}

-- Nanoseconds since the epoch, as `timestamppb.New(now)` keeps them.
abbrev pub Timestamp : Type 0
Timestamp = ℕ

-- proto/common: the oneof `ValueType`; `unset` is a message whose oneof is nil. A float is kept by
-- its bit pattern.
mutual
  pub data Value : Type 0 where
    unset null : Value
    boolean : Bool → Value
    integer : ℤ → Value
    float double : ℕ → Value
    timestamp : Timestamp → Value
    string : String → Value
    bytes : List ℕ → Value
    reference : String → Value
    array : Values → Value
    map_value : Fields → Value

  pub data Values : Type 0 where
    nil : Values
    cons : Value → Values → Values

  -- The fields of a `MapValue`.
  pub data Fields : Type 0 where
    end : Fields
    field : String → Value → Fields → Fields

pub record Duration : Type 0 where
  pub seconds : ℤ
  pub nanos : ℤ

pub record LatencyData : Type 0 where
  pub latencies : Dict Duration

pub record UserDefinition : Type 0 where
  pub user : String
  pub attributes : Option Fields
  pub latency_data : Option LatencyData
  pub team : String

pub data UserSessionState : Type 0 where
  unspecified reserved active : UserSessionState

pub record UserSession : Type 0 where
  pub name : String
  pub user : String
  pub latency_data : Option LatencyData
  pub create_time : Timestamp
  pub state : UserSessionState
  pub team : String
  pub attributes : Option Fields

pub data GameSessionState : Type 0 where
  unspecified creating active terminating terminated : GameSessionState

pub record GameSession : Type 0 where
  pub name : String
  pub max_participant_count : ℤ
  pub current_participant_count : ℤ
  pub can_participate : Bool
  pub is_public : Bool
  pub password : String
  pub state : GameSessionState
  pub host : String
  pub port : ℤ
  pub create_time : Timestamp
  pub properties : Option Fields
  pub user_sessions : List UserSession

pub record MatchedUserSession : Type 0 where
  pub user_definition : UserDefinition
  pub user_session : String
  pub matchmaking_id_token : String

pub data TicketState : Type 0 where
  unspecified searching placing pending succeeded timed_out failed cancelled : TicketState
  requiring_acceptance declined : TicketState

pub record MatchmakingTicket : Type 0 where
  pub name : String
  pub matchmaking_config : String
  pub user_definitions : List UserDefinition
  pub state : TicketState
  pub matched_user_sessions : List MatchedUserSession
  pub game_session : Option GameSession

pub data CreationTicketState : Type 0 where
  unspecified pending succeeded cancelled timed_out failed : CreationTicketState

-- `GameSessionCreationTicket`
pub record CreationTicket : Type 0 where
  pub name : String
  pub matchmaking_config : String
  pub game_session : Option GameSession
  pub user_definitions : List UserDefinition
  pub state : CreationTicketState
  pub matched_user_sessions : List MatchedUserSession

pub data GameSessionView : Type 0 where
  unspecified basic full user_session_basic : GameSessionView

abbrev pub is_session_active : GameSessionState → Bool
is_session_active active = Bool.true
is_session_active _ = false

abbrev pub is_user_active : UserSessionState → Bool
is_user_active active = Bool.true
is_user_active _ = false
