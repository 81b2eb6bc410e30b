-- ===== src/Examples/Documents.antt =====
-- The theorems on shared documents, on a document with nested fields.
use super_mario_bros_wonder.Base.{
  refl, put, split, after_last_slash, decimal, pos, ◌≡◌, ◌≢◌, arith, some, [], ◌∷◌, get, eq_iff, ok,
  err, out_of_range, if◌then◌else◌, ◌+ℤ◌,
}
use super_mario_bros_wonder.Proto.{integer, end}
use super_mario_bros_wonder.Attributes.{get_field}
use super_mario_bros_wonder.Names.{last_resource_segment}
use super_mario_bros_wonder.Gamesync.{GamesyncSession, Document, document_path, format_int}
use super_mario_bros_wonder.Gamesync.Documents.{check_precondition, read_field, set_field}
use super_mario_bros_wonder.Gamesync.Transforms.{checked_sum, max_int64}
use super_mario_bros_wonder.Gamesync.FieldLaws.{in_int64, read_field-set_field, checked_sum-eq}
use super_mario_bros_wonder.Gamesync.Writable.{writable_document, writable_participant}
use super_mario_bros_wonder.Gamesync.Ownership.{IsConnection, apply_operations-IsConnection}
use super_mario_bros_wonder.Gamesync.State.{Gamesync, new_gamesync, merge_document, update_result}
use super_mario_bros_wonder.Gamesync.Writes.{
  Working, write_documents, apply_operations, apply_operation, draft_operation, draft, merge_fields,
}
use super_mario_bros_wonder.Gamesync.Isolation.{write_documents-other_game}

read_field-set_field_example :
    read_field (some (set_field end ("a" ∷ "b" ∷ []) (some (integer (pos 3))))) ("a" ∷ "b" ∷ [])
    ≡ some (integer (pos 3))
read_field-set_field_example = read_field-set_field ("b" ∷ []) end "a" (integer (pos 3))

checked_sum-eq_example :
    checked_sum max_int64 (pos 1)
    ≡ (if in_int64 (max_int64 +ℤ pos 1) then ok (max_int64 +ℤ pos 1) else err out_of_range)
checked_sum-eq_example =
    checked_sum-eq max_int64 (pos 1) (omega arith) (omega arith) (omega arith) (omega arith)

abbrev pub player : GamesyncSession
player = record {
  uid = "ann";
  game_session = "gameSessions/gs-1";
  user_session = "userSessions/us-1";
  team = "";
  sequence = pos 1;
  connection = pos 1;
  attributes = some end;
  latency_json = "{}";
  created_at = some 1;
}

abbrev shared : Gamesync
unfolding new_gamesync
shared = record new_gamesync { sessions = ("us-1", player) ∷ [] }

games_differ : player.game_session ≢ "gameSessions/gs-2"
games_differ e = cc ((eq_iff "gameSessions/gs-1" "gameSessions/gs-2").1 e)

write_documents-other_game_example :
    let s' = (write_documents 9 shared player (merge_document "docs/p/1" (some end) ∷ []) []).0 in
    (get s'.documents "gameSessions/gs-2" ≡ get shared.documents "gameSessions/gs-2")
    × (get s'.global_values "gameSessions/gs-2" ≡ get shared.global_values "gameSessions/gs-2")
    × (get s'.owners "gameSessions/gs-2" ≡ get shared.owners "gameSessions/gs-2")
write_documents-other_game_example =
    write_documents-other_game 9 shared player (merge_document "docs/p/1" (some end) ∷ []) []
      "gameSessions/gs-2" games_differ

abbrev connection : Document
connection = record {
  name = "docs/c/0123456789abcdef";
  fields = some end;
  create_time = 1;
  update_time = 1;
}

abbrev before : Working
before = record {
  docs = ("docs/c/0123456789abcdef", connection) ∷ [];
  globals = [];
  owners = ("docs/c/0123456789abcdef", "us-2") ∷ [];
  changed = [];
  results = [];
}

abbrev participant : Document
participant = record { name = "docs/p/1"; fields = some end; create_time = 9; update_time = 9 }

abbrev after : Working
after = record before {
  docs = ("docs/c/0123456789abcdef", connection) ∷ ("docs/p/1", participant) ∷ [];
  owners = ("docs/c/0123456789abcdef", "us-2") ∷ ("docs/p/1", "us-1") ∷ [];
  changed = "docs/p/1" ∷ [];
  results = update_result ∷ [];
}

applied :
    apply_operations 9 player
      (("us-1", player) ∷ [])
      before
      (merge_document "docs/p/1" (some end) ∷ [])
    ≡ ok after
unfolding apply_operations apply_operation check_precondition draft_operation draft merge_fields get
    put writable_document document_path split last_resource_segment after_last_slash
    writable_participant format_int decimal get_field
applied = refl

strangers : "us-2" ≢ last_resource_segment player.user_session
unfolding last_resource_segment after_last_slash
strangers e = cc ((eq_iff "us-2" "us-1").1 e)

before-IsConnection : IsConnection before "docs/c/0123456789abcdef" "us-2" connection
unfolding document_path split get
before-IsConnection = record { id = "0123456789abcdef"; path = refl; stored = refl; owned = refl }

apply_operations-IsConnection_example :
    IsConnection after "docs/c/0123456789abcdef" "us-2" connection
apply_operations-IsConnection_example =
    apply_operations-IsConnection 9 player (("us-1", player) ∷ [])
      (merge_document "docs/p/1" (some end) ∷ []) before after "docs/c/0123456789abcdef" "us-2"
      connection strangers before-IsConnection applied
