-- ===== src/Gamesync/Ownership.antt =====
-- gamesync_store.go: the owners of connection documents.
use super_mario_bros_wonder.Base.{
  String, Bool, true, false, not, ◌==◌, ◌≡◌, ◌≢◌, Option, some, List, [], ◌∷◌, Dict, get, put,
  delete, get-put, get-delete, arith, eq_iff, Result, ok, err, >>=-eq-ok, refuse_if,
  refuse_if-eq-ok, permission_denied, invalid_argument, if◌then◌else◌, ap, sym, ◌∙◌, subst,
}
use super_mario_bros_wonder.Proto.{Fields, Timestamp}
use super_mario_bros_wonder.Names.{last_resource_segment}
use super_mario_bros_wonder.Gamesync.{
  GamesyncSession, Document, document_path, observed_connection_document_name,
}
use super_mario_bros_wonder.Gamesync.Documents.{check_precondition}
use super_mario_bros_wonder.Gamesync.Writable.{owner_of, writable_connection, writable_document}
use super_mario_bros_wonder.Gamesync.State.{WriteOperation}
use super_mario_bros_wonder.Gamesync.Writes.{
  Working, operation_name, operation_condition, is_operation, is_delete, draft, draft_operation,
  apply_operation, apply_operations, written_fields,
}

-- A connection document that is there, and whose it is.
pub record IsConnection (w : Working) (name owner : String) (d : Document) : Type 0 where
  pub id : String
  pub path : document_path name ≡ some ("c", id)
  pub stored : get w.docs name ≡ some d
  pub owned : get w.owners name ≡ some owner

-- Another user session may not write it.
foreign-refused :
    (w : Working) (name owner : String) (d : Document) (fields : Option Fields)
    (session : GamesyncSession) (sessions : Dict GamesyncSession) {u : Unit}
    → IsConnection w name owner d
    → writable_document name fields session w.owners (get w.docs name) sessions ≡ ok u
    → owner ≡ last_resource_segment session.user_session
unfolding writable_document writable_connection
foreign-refused w name owner d fields session sessions c h =
    let mine = last_resource_segment session.user_session in
    let same : owner_of w.owners name ≡ owner = rw (c.owned, owner_of) in
    let k = rw (c.path, c.stored, writable_document, writable_connection) at h in
    let (_, _, k2) =
      >>=-eq-ok (refuse_if (not (observed_connection_document_name name)) invalid_argument) _ k in
    let kept : not (owner_of w.owners name == mine) ≡ false =
      refuse_if-eq-ok _ permission_denied k2 in
    (eq_iff owner mine).0 (subst (λ o. (o == mine) ≡ true) same (ground (arith, kept)))

abbrev ok_or : Working → Result Working → Working
ok_or w (ok x) = x
ok_or w (err e) = w

-- What one operation writes, apart from what it checks.
record IsApplied (now : Timestamp) (session : GamesyncSession) (sessions : Dict GamesyncSession)
    (w : Working) (op : WriteOperation) (w' : Working) : Type 0 where
  pub fields : Option Fields
  pub document : Document
  pub allowed :
      writable_document
        (operation_name op)
        fields
        session
        w.owners
        (get w.docs (operation_name op))
        sessions
      ≡ ok tt
  pub docs : w'.docs ≡ (
      if is_delete op
      then delete w.docs (operation_name op)
      else put w.docs (operation_name op) document)
  pub owners : w'.owners ≡ (
      if is_delete op
      then delete w.owners (operation_name op)
      else put w.owners (operation_name op) (last_resource_segment session.user_session))

apply_operation-IsApplied :
    (now : Timestamp) (session : GamesyncSession) (sessions : Dict GamesyncSession) (w : Working)
    (op : WriteOperation) (w' : Working)
    → apply_operation now session sessions w op ≡ ok w'
    → IsApplied now session sessions w op w'
unfolding apply_operation
apply_operation-IsApplied now session sessions w op w' h =
    let name = operation_name op in
    let existing = get w.docs name in
    let (_, _, h1) = >>=-eq-ok (refuse_if (not (is_operation op)) invalid_argument) _ h in
    let (_, _, h2) = >>=-eq-ok (check_precondition (operation_condition op) existing) _ h1 in
    let (d, _, h3) =
      >>=-eq-ok (draft_operation op existing (draft name existing now) w.globals now) _ h2 in
    let (_, allowed, h4) =
      >>=-eq-ok
        (writable_document name (written_fields op d.document) session w.owners existing sessions) _
        h3 in
    record {
      fields = written_fields op d.document;
      document = d.document;
      allowed = allowed;
      docs = sym (ap (λ (r : Result Working). (ok_or w r).docs) h4);
      owners = sym (ap (λ (r : Result Working). (ok_or w r).owners) h4);
    }

get-write_ne {ℓ} :
    {V : Type ℓ} (b : Bool) (m : Dict V) (k j : String) (v : V)
    → k ≢ j
    → get (if b then delete m k else put m k v) j ≡ get m j
get-write_ne true m k j v ne = rw (get-delete m k j) (ground (arith, eq_iff k j))
get-write_ne false m k j v ne = rw (get-put m k j v) (ground (arith, eq_iff k j))

apply_operation-IsConnection :
    (now : Timestamp) (session : GamesyncSession) (sessions : Dict GamesyncSession) (w : Working)
    (op : WriteOperation) (w' : Working) (name owner : String) (d : Document)
    → owner ≢ last_resource_segment session.user_session
    → IsConnection w name owner d
    → apply_operation now session sessions w op ≡ ok w'
    → IsConnection w' name owner d
apply_operation-IsConnection now session sessions w op w' name owner d ne c h =
    let a = apply_operation-IsApplied now session sessions w op w' h in
    let other : operation_name op ≢ name = λ e. ne (
      foreign-refused w name owner d a.fields session sessions c (
        subst (λ n. writable_document n a.fields session w.owners (get w.docs n) sessions ≡ ok tt) e
          a.allowed)) in
    record {
      id = c.id;
      path = c.path;
      stored =
          ap (λ m. get m name) a.docs
          ∙ get-write_ne (is_delete op) w.docs (operation_name op) name a.document other
          ∙ c.stored;
      owned =
          ap (λ m. get m name) a.owners
          ∙ get-write_ne (is_delete op) w.owners (operation_name op) name _ other
          ∙ c.owned;
    }

-- Whatever operations a session writes in one transaction, a connection document that another user
-- session owns stays as it is and stays that session's.
pub apply_operations-IsConnection :
    (now : Timestamp) (session : GamesyncSession) (sessions : Dict GamesyncSession)
    (ops : List WriteOperation) (w w' : Working) (name owner : String) (d : Document)
    → owner ≢ last_resource_segment session.user_session
    → IsConnection w name owner d
    → apply_operations now session sessions w ops ≡ ok w'
    → IsConnection w' name owner d
unfolding apply_operations
apply_operations-IsConnection now session sessions [] w w' name owner d ne c h =
    subst (λ x. IsConnection x name owner d) (ap (ok_or w) h) c
apply_operations-IsConnection now session sessions (op ∷ ops) w w' name owner d ne c h =
    let (next, step, rest) = >>=-eq-ok (apply_operation now session sessions w op) _ h in
    apply_operations-IsConnection now session sessions ops next w' name owner d ne
      (apply_operation-IsConnection now session sessions w op next name owner d ne c step) rest
