-- ===== src/Gamesync/Writes.antt =====
-- gamesync_store.go: WriteDocuments behind authorizedSession, as one transaction on copies of the
-- session's tables. `now` is the time of the commit.
use super_mario_bros_wonder.Base.{
  String, Bool, true, false, not, ◌||◌, Option, none, some, List, [], ◌∷◌, ◌++◌, ◌==◌, ◌⊕◌, ◌+◌,
  if◌then◌else◌, ltb, eqb, length, Dict, get, put, delete, sort, any, is_some, has_prefix,
  before_last_slash, Result, ok, err, ◌>>=◌, ◌>>◌, refuse_if, invalid_argument, permission_denied,
  unauthenticated, resource_exhausted, failed_precondition, unimplemented,
}
use super_mario_bros_wonder.Proto.{Value, Fields, end, field, Timestamp}
use super_mario_bros_wonder.Attributes.{put_field}
use super_mario_bros_wonder.Names.{last_resource_segment}
use super_mario_bros_wonder.Gamesync.{GamesyncSession, Document}
use super_mario_bros_wonder.Gamesync.Documents.{
  or_no_fields, whole_mask, paths_of, copy_fields, Precondition, check_precondition,
}
use super_mario_bros_wonder.Gamesync.Transforms.{TransformType, apply_field_transform}
use super_mario_bros_wonder.Gamesync.Writable.{writable_document}
use super_mario_bros_wonder.Gamesync.State.{
  WriteOperation, update_document, merge_document, transform_document, delete_document,
  no_operation, WriteResult, update_result, delete_result, transform_result, Deferment,
  DefermentOperation, delete_deferment, update_deferment, Gamesync, table,
}

-- The copies that a transaction works on.
pub record Working : Type 0 where
  pub docs : Dict Document
  pub globals : Dict Value
  pub owners : Dict String
  pub changed : List String
  pub results : List WriteResult

-- What an operation makes of the document before it is checked for ownership.
pub record Drafted : Type 0 where
  pub document : Document
  pub globals : Dict Value
  pub result : WriteResult

abbrev pub operation_name : WriteOperation → String
operation_name (update_document name fields mask p) = name
operation_name (merge_document name fields) = name
operation_name (transform_document name transforms) = name
operation_name (delete_document name p) = name
operation_name no_operation = ""

abbrev pub operation_condition : WriteOperation → Option Precondition
operation_condition (update_document name fields mask p) = p
operation_condition (delete_document name p) = p
operation_condition _ = none

abbrev pub is_operation : WriteOperation → Bool
is_operation no_operation = false
is_operation _ = true

abbrev pub is_delete : WriteOperation → Bool
is_delete (delete_document name p) = true
is_delete _ = false

-- The document that is there, or an empty one, with the time of the write.
unfoldable pub draft : String → Option Document → Timestamp → Document
draft name none now = record {
  name = name;
  fields = some end;
  create_time = now;
  update_time = now;
}
draft name (some d) now = record d { fields = some (or_no_fields d.fields); update_time = now }

unfoldable pub merge_fields : Fields → Fields → Fields
merge_fields end out = out
merge_fields (field k v fs) out = merge_fields fs (put_field out k v)

unfoldable pub run_transforms :
    Fields
    → List (String × TransformType)
    → Dict Value
    → Timestamp
    → List Value
    → Result (Fields × Dict Value × List Value)
run_transforms fields [] globals now values = ok (fields, globals, values)
run_transforms fields ((path, t) ∷ ts) globals now values = do
  done ← apply_field_transform fields path t globals now
  run_transforms done.fields ts done.globals now (values ++ (done.value ∷ []))

abbrev updated : Fields → Document → Option (List String) → Result Fields
updated fs d mask =
    if whole_mask mask then ok fs else copy_fields (some fs) (paths_of mask) (or_no_fields d.fields)

unfoldable pub draft_operation :
    WriteOperation → Option Document → Document → Dict Value → Timestamp → Result Drafted
draft_operation (update_document name none mask p) existing d globals now = err invalid_argument
draft_operation (update_document name (some fs) mask p) existing d globals now = do
  fields ← updated fs d mask
  ok (record {
    document = record d { fields = some fields };
    globals = globals;
    result = update_result;
  })
draft_operation (merge_document name none) existing d globals now = err invalid_argument
draft_operation (merge_document name (some fs)) existing d globals now = ok (record {
  document = record d { fields = some (merge_fields fs (or_no_fields d.fields)) };
  globals = globals;
  result = update_result;
})
draft_operation (transform_document name transforms) existing d globals now = do
  refuse_if (not (is_some existing)) failed_precondition
  refuse_if (not (has_prefix name "docs/__pus/")) unimplemented
  done ← run_transforms (or_no_fields d.fields) transforms globals now []
  ok (record {
    document = record d { fields = some done.0 };
    globals = done.1;
    result = transform_result done.2;
  })
draft_operation (delete_document name p) existing d globals now =
    ok (record { document = d; globals = globals; result = delete_result })
draft_operation no_operation existing d globals now = err invalid_argument

-- A delete is checked with no fields.
abbrev pub written_fields : WriteOperation → Document → Option Fields
written_fields op d = if is_delete op then none else d.fields

abbrev note_change : String → List String → List String
note_change name changed = if any (λ n. n == name) changed then changed else changed ++ (name ∷ [])

-- One round of the loop over the write operations.
unfoldable pub apply_operation :
    Timestamp → GamesyncSession → Dict GamesyncSession → Working → WriteOperation → Result Working
apply_operation now session sessions w op = do
  refuse_if (not (is_operation op)) invalid_argument
  let name = operation_name op
  let owner = last_resource_segment session.user_session
  let existing = get w.docs name
  check_precondition (operation_condition op) existing
  d ← draft_operation op existing (draft name existing now) w.globals now
  writable_document name (written_fields op d.document) session w.owners existing sessions
  ok (record {
    docs = if is_delete op then delete w.docs name else put w.docs name d.document;
    globals = d.globals;
    owners = if is_delete op then delete w.owners name else put w.owners name owner;
    changed = note_change name w.changed;
    results = w.results ++ (d.result ∷ []);
  })

unfoldable pub apply_operations :
    Timestamp
    → GamesyncSession
    → Dict GamesyncSession
    → Working
    → List WriteOperation
    → Result Working
apply_operations now session sessions w [] = ok w
apply_operations now session sessions w (op ∷ ops) = do
  next ← apply_operation now session sessions w op
  apply_operations now session sessions next ops

-- strings.TrimSuffix(s, "/")
abbrev trim_slash : String → String
trim_slash s =
    if last_resource_segment s == ""
    then elim (before_last_slash s) [ none ↦ s | some t ↦ t ]
    else s

unfoldable pub deferment_belongs_to_session : String → GamesyncSession → Bool
deferment_belongs_to_session name session =
    has_prefix name "userSessions/current/deferments/"
    || has_prefix name (trim_slash session.user_session ⊕ "/deferments/")

-- Only deletes of documents that the session may delete are deferred.
unfoldable pub check_deferred :
    GamesyncSession → Dict GamesyncSession → Working → List WriteOperation → Result (Unit {0})
check_deferred session sessions w [] = ok tt
check_deferred session sessions w (op ∷ ops) = do
  refuse_if (not (is_delete op)) unimplemented
  let name = operation_name op
  writable_document name none session w.owners (get w.docs name) sessions
  check_deferred session sessions w ops

unfoldable pub apply_deferment :
    GamesyncSession
    → Dict GamesyncSession
    → Working
    → Dict Deferment
    → DefermentOperation
    → Result (Dict Deferment)
apply_deferment session sessions w deferments (delete_deferment name) = do
  refuse_if (not (deferment_belongs_to_session name session)) permission_denied
  ok (delete deferments name)
apply_deferment session sessions w deferments (update_deferment none) = err invalid_argument
apply_deferment session sessions w deferments (update_deferment (some d)) = do
  refuse_if (not (deferment_belongs_to_session d.name session) || eqb (length d.write_operations) 0)
      invalid_argument
  check_deferred session sessions w d.write_operations
  ok (put deferments d.name d)

unfoldable pub apply_deferments :
    GamesyncSession
    → Dict GamesyncSession
    → Working
    → Dict Deferment
    → List DefermentOperation
    → Result (Dict Deferment)
apply_deferments session sessions w deferments [] = ok deferments
apply_deferments session sessions w deferments (op ∷ ops) = do
  next ← apply_deferment session sessions w deferments op
  apply_deferments session sessions w next ops

abbrev pub working_copy : Gamesync → GamesyncSession → Working
working_copy s session = record {
  docs = table s.documents session.game_session;
  globals = table s.global_values session.game_session;
  owners = table s.owners session.game_session;
  changed = [];
  results = [];
}

-- All operations on the copies: nothing of it shows before the commit.
unfoldable pub transact :
    Timestamp
    → Gamesync
    → GamesyncSession
    → List WriteOperation
    → List DefermentOperation
    → Result (Working × Dict Deferment)
transact now s session writes deferred = do
  let owner = last_resource_segment session.user_session
  refuse_if (ltb 256 (length writes + length deferred)) resource_exhausted
  refuse_if (not (is_some (get s.sessions owner))) unauthenticated
  w ← apply_operations now session s.sessions (working_copy s session) writes
  deferments ← apply_deferments session s.sessions w (table s.deferments owner) deferred
  ok (w, deferments)

unfoldable pub commit : Gamesync → GamesyncSession → Working × Dict Deferment → Gamesync
commit s session (w, deferments) = record s {
  documents = put s.documents session.game_session w.docs;
  global_values = put s.global_values session.game_session w.globals;
  owners = put s.owners session.game_session w.owners;
  deferments = put s.deferments (last_resource_segment session.user_session) deferments;
}

-- What the subscribers of the session are sent: the changed names in order, each with its document
-- or, if it was deleted, with none.
pub record Written : Type 0 where
  pub results : List WriteResult
  pub published : List (String × Option Document)

publications : Dict Document → List String → List (String × Option Document)
publications docs [] = []
publications docs (name ∷ names) = (name, get docs name) ∷ publications docs names

-- `session` is what authorizedSession answers.
unfoldable pub write_documents :
    Timestamp
    → Gamesync
    → GamesyncSession
    → List WriteOperation
    → List DefermentOperation
    → Gamesync × Result Written
unfolding publications
write_documents now s session writes deferred = elim (transact now s session writes deferred) [
  | err c ↦ (s, err c)
  | ok done ↦ (
    commit s session done,
    ok (record {
      results = done.0.results;
      published = publications done.0.docs (sort done.0.changed);
    }),
  )
]
