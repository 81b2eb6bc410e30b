-- ===== src/Gamesync/Writable.antt =====
-- gamesync_store.go: writableDocument, who may write which document.
use super_mario_bros_wonder.Base.{
  String, Bool, true, false, not, ◌&&◌, ◌||◌, Option, none, some, ◌==◌, if◌then◌else◌, Dict, get,
  any, is_some, Result, ok, err, ◌>>◌, refuse_if, invalid_argument, permission_denied,
  unimplemented,
}
use super_mario_bros_wonder.Proto.{
  Value, Values, nil, cons, integer, boolean, bytes, array, map_value, Fields,
}
use super_mario_bros_wonder.Attributes.{lookup_field, string_value}
use super_mario_bros_wonder.Names.{last_resource_segment}
use super_mario_bros_wonder.Gamesync.{
  GamesyncSession, Document, observed_string_value, observed_integer_value,
  observed_connection_document_name, format_int, map_of, document_path,
}

-- owners[name], "" if there is none
abbrev pub owner_of : Dict String → String → String
owner_of owners name = elim (get owners name) [ none ↦ "" | some owner ↦ owner ]

abbrev pub is_integer : Option Value → Bool
is_integer (some (integer n)) = true
is_integer _ = false

abbrev is_boolean : Option Value → Bool
is_boolean (some (boolean b)) = true
is_boolean _ = false

abbrev is_bytes : Option Value → Bool
is_bytes (some (bytes b)) = true
is_bytes _ = false

abbrev is_map : Option Value → Bool
is_map (some (map_value m)) = true
is_map _ = false

-- What an optional field has to be, if it is there.
abbrev is_missing_or : Bool → Option Value → Bool
is_missing_or test none = true
is_missing_or test (some v) = test

-- docs/p/<sequence> and docs/e/<sequence>
unfoldable pub writable_participant : String → Option Fields → GamesyncSession → Result (Unit {0})
writable_participant id fields session = do
  refuse_if (not (id == format_int session.sequence)) permission_denied
  let uid = lookup_field fields "uid"
  refuse_if (not (is_missing_or (observed_string_value uid session.uid) uid)) permission_denied

-- docs/c/<connection>
unfoldable pub writable_connection :
    String → Dict String → Option Document → String → Result (Unit {0})
writable_connection name owners existing owner = do
  refuse_if (not (observed_connection_document_name name)) invalid_argument
  refuse_if (is_some existing && not (owner_of owners name == owner)) permission_denied

check_state_fields : String → Option Fields → GamesyncSession → Result (Unit {0})
check_state_fields collection none session = ok tt
check_state_fields collection (some fs) session = do
  let key = if collection == "__bl" then "id" else "uid"
  refuse_if (not (observed_string_value (lookup_field (some fs) key) session.uid)) permission_denied
  refuse_if
      ((collection == "__pus")
        && (not (observed_integer_value (lookup_field (some fs) "ussid") session.sequence)
            || not (observed_integer_value (lookup_field (some fs) "ucsid") session.connection)))
      permission_denied

-- docs/__pus/<owner> and docs/__bl/<owner>
unfoldable pub writable_state :
    String → String → Option Fields → GamesyncSession → String → Result (Unit {0})
unfolding check_state_fields
writable_state collection id fields session owner = do
  refuse_if (not (id == owner)) permission_denied
  check_state_fields collection fields session

abbrev in_game : String → Option GamesyncSession → Bool
in_game game_session none = false
in_game game_session (some s) = s.game_session == game_session

check_recipient : String → String → GamesyncSession → Dict GamesyncSession → Result (Unit {0})
check_recipient collection id session sessions =
    if collection == "__stu"
    then refuse_if (not (in_game session.game_session (get sessions id))) permission_denied
    else refuse_if (not (id == "All")) unimplemented

check_envelope : String → Option Fields → GamesyncSession → Dict String → String → Result (Unit {0})
check_envelope name none session owners owner =
    refuse_if (not (owner_of owners name == owner)) permission_denied
check_envelope name (some fs) session owners owner = do
  refuse_if (not (is_integer (lookup_field (some fs) "suscid"))) invalid_argument
  refuse_if
      (not (observed_string_value (lookup_field (some fs) "suid") session.uid)
        || not (observed_string_value (lookup_field (some fs) "susid") owner)
        || not (observed_integer_value (lookup_field (some fs) "sussid") session.sequence))
      permission_denied
  refuse_if (not (is_bytes (lookup_field (some fs) "pl"))) invalid_argument
  let metadata = lookup_field (some fs) "mp"
  refuse_if (not (is_missing_or (is_map metadata) metadata)) invalid_argument

-- docs/__stu/<recipient> and docs/__stg/All
unfoldable pub writable_signal :
    String
    → String
    → String
    → Option Fields
    → GamesyncSession
    → Dict String
    → String
    → Dict GamesyncSession
    → Result (Unit {0})
unfolding check_recipient check_envelope
writable_signal name collection id fields session owners owner sessions = do
  check_recipient collection id session sessions
  check_envelope name fields session owners owner

abbrev pub is_peer : GamesyncSession → String → String × GamesyncSession → Bool
is_peer session uid (_, peer) = (peer.game_session == session.game_session) && (peer.uid == uid)

check_entry_fields : Option Fields → GamesyncSession → Dict GamesyncSession → Result (Unit {0})
check_entry_fields fields session sessions = do
  refuse_if (not (observed_string_value (lookup_field fields "lu") session.uid)) permission_denied
  let remote = string_value (lookup_field fields "ru")
  refuse_if (not (any (is_peer session remote) sessions)) permission_denied
  refuse_if (not (string_value (lookup_field fields "p2p") == "nn::pia::npln::NplnPlugin"))
      invalid_argument
  refuse_if (not (is_integer (lookup_field fields "rc"))) invalid_argument
  refuse_if (not (is_boolean (lookup_field fields "re"))) invalid_argument

check_entries : Values → GamesyncSession → Dict GamesyncSession → Result (Unit {0})
unfolding check_entry_fields
check_entries nil session sessions = ok tt
check_entries (cons v vs) session sessions = do
  check_entry_fields (map_of (some v)) session sessions
  check_entries vs session sessions

check_array : Option Value → GamesyncSession → Dict GamesyncSession → Result (Unit {0})
unfolding check_entries
check_array (some (array (cons v vs))) session sessions = check_entries (cons v vs) session sessions
check_array _ session sessions = err invalid_argument

-- docs/__mt/nat_traversal
unfoldable pub writable_monitoring :
    String → Option Fields → GamesyncSession → Dict GamesyncSession → Result (Unit {0})
unfolding check_array
writable_monitoring id fields session sessions = do
  refuse_if (not (id == "nat_traversal") || not (is_some fields)) invalid_argument
  check_array (lookup_field fields "a") session sessions

-- The families of documents, by collection; `fields` is none for a document that is deleted.
unfoldable pub writable_document :
    String
    → Option Fields
    → GamesyncSession
    → Dict String
    → Option Document
    → Dict GamesyncSession
    → Result (Unit {0})
writable_document name fields session owners existing sessions =
    let owner = last_resource_segment session.user_session in
    elim (document_path name) [
      | none ↦ err invalid_argument
      | some (collection, id) ↦
          if (collection == "p") || (collection == "e")
          then writable_participant id fields session
          else if collection == "c"
          then writable_connection name owners existing owner
          else if (collection == "__pus") || (collection == "__bl")
          then writable_state collection id fields session owner
          else if (collection == "__stu") || (collection == "__stg")
          then writable_signal name collection id fields session owners owner sessions
          else if collection == "__mt"
          then writable_monitoring id fields session sessions
          else err unimplemented
    ]
