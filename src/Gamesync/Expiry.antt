-- ===== src/Gamesync/Expiry.antt =====
-- gamesync_store.go: streams, the timers that end a session, and expireSession. What other calls do
-- between two holds of the lock is a parameter.
use super_mario_bros_wonder.Base.{
  String, ℕ, ℤ, pos, negsuc, Bool, true, false, not, ◌&&◌, ◌||◌, Option, none, some, List, [], ◌∷◌,
  ◌++◌, ◌==◌, ◌+◌, ◌+ℤ◌, if◌then◌else◌, eqb, ltb_ℤ, leb_ℤ, wrap64, any, keep, keys, Dict, get, put,
  delete, Result, ok, err,
}
use super_mario_bros_wonder.Registry.{SessionRegistry, depart}
use super_mario_bros_wonder.Gamesync.{GamesyncSession, Document}
use super_mario_bros_wonder.Gamesync.Documents.{check_precondition}
use super_mario_bros_wonder.Gamesync.Writable.{owner_of}
use super_mario_bros_wonder.Gamesync.State.{
  Gamesync, Deferment, WriteOperation, delete_document, update_document, merge_document,
  transform_document, no_operation, table, Sent, Subscriber,
}
use super_mario_bros_wonder.Gamesync.Streams.{publish_deleted, publish_all, subscribers_of}
use super_mario_bros_wonder.Gamesync.Sessions.{number_of, user_document_name}

unfoldable pub stream_count : Gamesync → String → ℤ
stream_count g id = number_of (get g.stream_counts id)

unfoldable pub stream_started : Gamesync → String → Gamesync
stream_started g id = record g {
  stream_counts = put g.stream_counts id (wrap64 (stream_count g id +ℤ pos 1));
  disconnect_timers = delete g.disconnect_timers id;
}

-- A new timer, unless a stream is open. Its delay is left out: a timer may go off at any time.
unfoldable pub schedule_disconnect : Gamesync → String → Gamesync
schedule_disconnect g id = if ltb_ℤ (pos 0) (stream_count g id) then g else record g {
  disconnect_timers = put g.disconnect_timers id g.next_timer;
  next_timer = g.next_timer + 1;
}

-- The first hold of the lock of streamEnded.
unfoldable pub count_down : Gamesync → String → Gamesync
count_down g id = record g {
  stream_counts = put g.stream_counts id (wrap64 (stream_count g id +ℤ negsuc 0));
}

unfoldable pub stream_ended : (Gamesync → Gamesync) → Gamesync → String → Gamesync
stream_ended between g id =
    let less = count_down g id in
    if leb_ℤ (stream_count less id) (pos 0)
    then schedule_disconnect (between less) id
    else between less

abbrev pub passes : Result (Unit {0}) → Bool
passes (ok _) = true
passes (err _) = false

-- The deferred deletes of documents that the session owns still, and that their conditions allow.
unfoldable pub deferred_names :
    String → Dict String → Dict Document → List WriteOperation → List String
deferred_names id owners docs [] = []
deferred_names id owners docs (delete_document name p ∷ ops) =
    let rest = deferred_names id owners docs ops in
    if (owner_of owners name == id) && passes (check_precondition p (get docs name))
    then name ∷ rest
    else rest
deferred_names id owners docs (update_document name fields mask p ∷ ops) =
    deferred_names id owners docs ops
deferred_names id owners docs (merge_document name fields ∷ ops) = deferred_names id owners docs ops
deferred_names id owners docs (transform_document name ts ∷ ops) = deferred_names id owners docs ops
deferred_names id owners docs (no_operation ∷ ops) = deferred_names id owners docs ops

unfoldable pub all_deferred : String → Dict String → Dict Document → Dict Deferment → List String
all_deferred id owners docs [] = []
all_deferred id owners docs ((name, d) ∷ deferments) =
    deferred_names id owners docs d.write_operations ++ all_deferred id owners docs deferments

abbrev pub is_owner : Option String → String → Bool
is_owner none id = false
is_owner (some owner) id = owner == id

unfoldable pub owned_names : String → Dict String → List String
owned_names id owners = keep (λ name. is_owner (get owners name) id) (keys owners)

-- A set of names, as Go's map[string]bool.
unfoldable pub distinct : List String → List String
distinct [] = []
distinct (name ∷ names) =
    let rest = distinct names in if any (λ n. n == name) rest then rest else name ∷ rest

-- The names that go with a session.
unfoldable pub expired_names : Gamesync → String → GamesyncSession → List String
expired_names g id session =
    let owners = table g.owners session.game_session in
    distinct (
      user_document_name id
        ∷ all_deferred id owners (table g.documents session.game_session) (table g.deferments id)
      ++ owned_names id owners)

unfoldable pub delete_all {ℓ} : {V : Type ℓ} → Dict V → List String → Dict V
delete_all m [] = m
delete_all m (name ∷ names) = delete_all (delete m name) names

-- The keys are taken out of a table that is there.
unfoldable pub delete_from {ℓ} : {V : Type ℓ} → Dict (Dict V) → String → List String → Dict (Dict V)
delete_from tables key names = elim (get tables key) [
  | none ↦ tables
  | some m ↦ put tables key (delete_all m names)
]

unfoldable pub remove_session : Gamesync → String → GamesyncSession → Gamesync
remove_session g id session =
    let names = expired_names g id session in
    record g {
      documents = delete_from g.documents session.game_session names;
      owners = delete_from g.owners session.game_session names;
      sessions = delete g.sessions id;
      deferments = delete g.deferments id;
      disconnect_timers = delete g.disconnect_timers id;
      stream_counts = delete g.stream_counts id;
    }

unfoldable pub publish_names : List String → List Subscriber → List Sent
publish_names [] subscribers = []
publish_names (name ∷ names) subscribers =
    publish_all (publish_deleted name) subscribers ++ publish_names names subscribers

abbrev is_timer : Option ℕ → ℕ → Bool
is_timer none timer = false
is_timer (some t) timer = eqb t timer

-- The session that a timer ends, when it goes off.
unfoldable pub expiring : Gamesync → String → ℕ → Option GamesyncSession
expiring g id timer =
    if ltb_ℤ (pos 0) (stream_count g id) || not (is_timer (get g.disconnect_timers id) timer)
    then none
    else get g.sessions id

-- expireSession, with the registry, which the session leaves, and what the streams are sent.
unfoldable pub expire_session :
    Gamesync → SessionRegistry → String → ℕ → Gamesync × SessionRegistry × List Sent
expire_session g r id timer = elim (expiring g id timer) [
  | none ↦ (g, r, [])
  | some session ↦ (
    remove_session g id session,
    depart r session.game_session session.user_session,
    publish_names (expired_names g id session) (subscribers_of g session.game_session),
  )
]
