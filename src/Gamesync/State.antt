-- ===== src/Gamesync/State.antt =====
-- gamesync.go: the state of gamesyncServer, and what it is asked and sends.
use super_mario_bros_wonder.Base.{String, ℕ, ℤ, Option, none, some, List, [], Dict, get}
use super_mario_bros_wonder.Proto.{Value, Fields}
use super_mario_bros_wonder.Gamesync.{GamesyncSession, Document}
use super_mario_bros_wonder.Gamesync.Documents.{Precondition}
use super_mario_bros_wonder.Gamesync.Transforms.{TransformType}

-- The oneof of a write: the name and fields of its document, and what else it carries. A transform
-- names its fields by paths.
pub data WriteOperation : Type 0 where
  update_document :
      String → Option Fields → Option (List String) → Option Precondition → WriteOperation
  merge_document : String → Option Fields → WriteOperation
  transform_document : String → List (String × TransformType) → WriteOperation
  delete_document : String → Option Precondition → WriteOperation
  no_operation : WriteOperation

pub data WriteResult : Type 0 where
  update_result delete_result : WriteResult
  transform_result : List Value → WriteResult

pub record Deferment : Type 0 where
  pub name : String
  pub write_operations : List WriteOperation

-- An update of no deferment is `none`, as is an operation with an empty oneof.
pub data DefermentOperation : Type 0 where
  delete_deferment : String → DefermentOperation
  update_deferment : Option Deferment → DefermentOperation

-- The oneof of a target.
pub data TargetType : Type 0 where
  documents_target : List String → TargetType
  collection_target : String → TargetType
  no_target_type : TargetType

pub record Target : Type 0 where
  pub name : String
  pub target_type : TargetType

-- A subscriber is one object; the model names it by its stream.
pub record Subscriber : Type 0 where
  pub stream : ℕ
  pub targets : Dict Target

-- The tables of gamesyncServer: sessions, counts, timers and deferments are by user session, the
-- others by game session. A timer is one object; the model numbers them as they are made.
pub record Gamesync : Type 0 where
  pub sessions : Dict GamesyncSession
  pub next_sequence : Dict ℤ  -- int64
  pub stream_counts : Dict ℤ  -- int
  pub disconnect_timers : Dict ℕ
  pub next_timer : ℕ
  pub documents : Dict (Dict Document)
  pub global_values : Dict (Dict Value)
  pub owners : Dict (Dict String)
  pub deferments : Dict (Dict Deferment)
  pub subscribers : Dict (List Subscriber)

unfoldable pub new_gamesync : Gamesync
new_gamesync = record {
  sessions = [];
  next_sequence = [];
  stream_counts = [];
  disconnect_timers = [];
  next_timer = 0;
  documents = [];
  global_values = [];
  owners = [];
  deferments = [];
  subscribers = [];
}

-- A table that is missing is empty.
abbrev pub table {ℓ} : {V : Type ℓ} → Dict (Dict V) → String → Dict V
table tables key = elim (get tables key) [ none ↦ [] | some t ↦ t ]

pub data TargetChangeType : Type 0 where
  target_updated target_listed target_deleted : TargetChangeType

pub data DocumentChangeType : Type 0 where
  document_exist document_updated document_deleted : DocumentChangeType

-- The oneof of KeepUserSessionResponse.
pub data Response : Type 0 where
  echo_response : String → Response
  target_change : String → TargetChangeType → Response
  document_change : String → DocumentChangeType → Document → Response

-- What is handed to a stream.
pub record Sent : Type 0 where
  pub stream : ℕ
  pub response : Response

-- The oneof of KeepUserSessionRequest; an update may come without a target.
pub data RequestType : Type 0 where
  echo_request : String → RequestType
  update_target : Option Target → RequestType
  delete_target : String → RequestType
  no_request : RequestType
