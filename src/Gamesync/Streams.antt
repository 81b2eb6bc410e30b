-- ===== src/Gamesync/Streams.antt =====
-- gamesync.go, gamesync_reads.go: targets, subscribers and what is published to them. A stream is
-- taken to accept what it is sent.
use super_mario_bros_wonder.Base.{
  String, ℕ, Bool, false, not, Option, none, some, List, [], ◌∷◌, ◌++◌, ◌==◌, if◌then◌else◌, eqb,
  map, keep, any, length, Dict, get, put, delete, keys, sort, before_last_slash,
}
use super_mario_bros_wonder.Names.{last_resource_segment}
use super_mario_bros_wonder.Gamesync.{GamesyncSession, Document}
use super_mario_bros_wonder.Gamesync.State.{
  TargetType, documents_target, collection_target, no_target_type, Target, Subscriber, Gamesync,
  table, target_updated, target_listed, target_deleted, document_exist, document_updated,
  document_deleted, DocumentChangeType, Response, target_change, document_change, Sent,
}

abbrev pub or_self : String → Option String → String
or_self s none = s
or_self s (some t) = t

abbrev pub type_matches : TargetType → String → Bool
type_matches (documents_target names) document_name = any (λ n. n == document_name) names
type_matches (collection_target collection) document_name =
    collection == or_self document_name (before_last_slash document_name)
type_matches no_target_type document_name = false

unfoldable pub target_matches_document : Target → String → Bool
target_matches_document target document_name = type_matches target.target_type document_name

-- The change of a document, for each target that matches it. Go's order over the targets is open.
unfoldable pub change_targets : DocumentChangeType → Document → Dict Target → List Response
change_targets kind document [] = []
change_targets kind document ((id, target) ∷ targets) =
    let rest = change_targets kind document targets in
    if target_matches_document target document.name
    then document_change id kind document ∷ rest
    else rest

abbrev pub send_to : ℕ → List Response → List Sent
send_to stream responses = map (λ r. record { stream = stream; response = r }) responses

abbrev pub no_document : String → Document
no_document name = record { name = name; fields = none; create_time = 0; update_time = 0 }

unfoldable pub publish : Document → Subscriber → List Sent
publish document s = send_to s.stream (change_targets document_updated document s.targets)

unfoldable pub publish_deleted : String → Subscriber → List Sent
publish_deleted document_name s =
    send_to s.stream (change_targets document_deleted (no_document document_name) s.targets)

unfoldable pub publish_all : (Subscriber → List Sent) → List Subscriber → List Sent
publish_all send [] = []
publish_all send (s ∷ subscribers) = send s ++ publish_all send subscribers

-- The names of the documents that a target matches, sorted.
unfoldable pub matching_names : Gamesync → GamesyncSession → Target → List String
matching_names g session target =
    sort (keep (target_matches_document target) (keys (table g.documents session.game_session)))

unfoldable pub get_all : Dict Document → List String → List Document
get_all docs [] = []
get_all docs (name ∷ names) = elim (get docs name) [
  | none ↦ get_all docs names
  | some d ↦ d ∷ get_all docs names
]

unfoldable pub committed_snapshot : Gamesync → GamesyncSession → Target → List Document
committed_snapshot g session target =
    get_all (table g.documents session.game_session) (matching_names g session target)

-- A subscriber with the target, and what its stream is sent: the target, what is there, the end.
unfoldable pub install_target : Target → List Document → Subscriber → Subscriber × List Sent
install_target target documents s =
    let id = last_resource_segment target.name in
    (
      record s { targets = put s.targets id target },
      send_to s.stream (
          target_change id target_updated ∷ map (λ d. document_change id document_exist d) documents
          ++ (target_change id target_listed ∷ [])),
    )

unfoldable pub remove_target : String → Subscriber → Subscriber × List Sent
remove_target target_name s =
    let id = last_resource_segment target_name in
    (
      record s { targets = delete s.targets id },
      send_to s.stream (target_change id target_deleted ∷ []),
    )

abbrev pub subscribers_of : Gamesync → String → List Subscriber
subscribers_of g game_session = elim (get g.subscribers game_session) [ none ↦ [] | some l ↦ l ]

unfoldable pub add_subscriber : Gamesync → String → ℕ → Gamesync
add_subscriber g game_session stream = record g {
  subscribers =
      put g.subscribers game_session
        (subscribers_of g game_session ++ (record { stream = stream; targets = [] } ∷ []));
}

unfoldable pub remove_subscriber : Gamesync → String → ℕ → Gamesync
remove_subscriber g game_session stream =
    let left =
      keep (λ (s : Subscriber). not (eqb s.stream stream)) (subscribers_of g game_session) in
    record g {
      subscribers =
          if eqb (length left) 0
          then delete g.subscribers game_session
          else put g.subscribers game_session left;
    }

-- One subscriber of a game session, changed where it stands.
unfoldable pub change_subscriber :
    ℕ → (Subscriber → Subscriber × List Sent) → List Subscriber → List Subscriber × List Sent
change_subscriber stream change [] = ([], [])
change_subscriber stream change (s ∷ subscribers) =
    let rest = change_subscriber stream change subscribers in
    if eqb s.stream stream then ((change s).0 ∷ subscribers, (change s).1) else (s ∷ rest.0, rest.1)

unfoldable pub at_subscriber :
    Gamesync → String → ℕ → (Subscriber → Subscriber × List Sent) → Gamesync × List Sent
at_subscriber g game_session stream change =
    let done = change_subscriber stream change (subscribers_of g game_session) in
    (record g { subscribers = put g.subscribers game_session done.0 }, done.1)
