-- ===== src/Gamesync/Sessions.antt =====
-- gamesync.go: the claims of a gamesync token, the sessions that are remembered, and their documents.
use super_mario_bros_wonder.Base.{
  String, ℕ, ℤ, pos, Bool, true, false, not, ◌&&◌, ◌||◌, Option, none, some, List, [], ◌∷◌, ◌==◌,
  ◌⊕◌, if◌then◌else◌, leb_ℤ, ◌+ℤ◌, wrap64, get, put, split,
}
use super_mario_bros_wonder.Proto.{Fields, end, field, string, integer, map_value, Timestamp}
use super_mario_bros_wonder.Names.{last_resource_segment, npln_issuer, npln_tenant_id}
use super_mario_bros_wonder.Auth.{Context, bearer_token}
use super_mario_bros_wonder.Gamesync.{GamesyncSession, Document}
use super_mario_bros_wonder.Gamesync.Documents.{or_no_fields}
use super_mario_bros_wonder.Gamesync.State.{Gamesync, table, Sent}
use super_mario_bros_wonder.Gamesync.Streams.{publish, publish_all, subscribers_of}

pub record GssMatchClaims : Type 0 where
  pub expires : ℤ
  pub issuer : String
  pub subject : String
  pub game_session_id : String
  pub user_session_id : String
  pub tenant_id : String
  pub user_id : String
  pub team : String
  pub attributes : String
  pub latency : String

pub record GamesyncAccessClaims : Type 0 where
  pub expires_at : ℤ
  pub issuer : String
  pub subject : String
  pub tenant_id : String
  pub game_session : String
  pub user_session : String

-- The check of a signature and the decoding of a payload.
pub record TokenReader : Type 0 where
  pub verify : String → String → String → Bool
  pub decode_match : String → Option GssMatchClaims
  pub decode_access : String → Option GamesyncAccessClaims

abbrev pub signed_payload : TokenReader → String → Option String
signed_payload v token = elim (split b'.' token) [
  | header ∷ payload ∷ signature ∷ [] ↦
      if v.verify header payload signature then some payload else none
  | _ ↦ none
]

unfoldable pub valid_match_claims : ℕ → GssMatchClaims → Bool
valid_match_claims unix c =
    (c.issuer == "gss")
    && not (leb_ℤ c.expires (pos unix))
    && not (c.subject == "")
    && (c.user_id == c.subject)
    && (c.tenant_id == npln_tenant_id)
    && not (c.game_session_id == "")
    && not (c.user_session_id == "")

unfoldable pub valid_access_claims : ℕ → GamesyncAccessClaims → Bool
valid_access_claims unix c =
    (c.issuer == npln_issuer)
    && not (c.subject == "")
    && not (leb_ℤ c.expires_at (pos unix))
    && (c.tenant_id == npln_tenant_id)
    && not (c.game_session == "")
    && not (c.user_session == "")

abbrev pub bind {ℓ κ} : {A : Type ℓ} {B : Type κ} → Option A → (A → Option B) → Option B
bind none f = none
bind (some a) f = f a

abbrev pub only_if {ℓ} : {A : Type ℓ} → Bool → A → Option A
only_if true a = some a
only_if false a = none

unfoldable pub verify_gss_match_token : TokenReader → ℕ → String → Option GssMatchClaims
verify_gss_match_token v unix token =
    bind (bind (signed_payload v token) v.decode_match) (λ c. only_if (valid_match_claims unix c) c)

unfoldable pub verify_gamesync_access_token : TokenReader → ℕ → String → Option GamesyncAccessClaims
verify_gamesync_access_token v unix token =
    bind (bind (signed_payload v token) v.decode_access)
      (λ c. only_if (valid_access_claims unix c) c)

-- The guards on the session that a token names.
unfoldable pub token_fits : GamesyncAccessClaims → String → GamesyncSession → Bool
token_fits c request_name session =
    let id = last_resource_segment c.user_session in
    (session.uid == c.subject)
    && (session.game_session == c.game_session)
    && (last_resource_segment session.user_session == id)
    && ((request_name == "")
        || (request_name == "userSessions/current")
        || (request_name == c.user_session)
        || (last_resource_segment request_name == id))

-- `none` is any of its errors, which every caller answers alike.
unfoldable pub authorized_session :
    TokenReader → ℕ → Gamesync → Context → String → Option GamesyncSession
authorized_session v unix g ctx request_name =
    bind (bind (bearer_token ctx) (verify_gamesync_access_token v unix)) (λ c.
      bind (get g.sessions (last_resource_segment c.user_session))
        (λ session. only_if (token_fits c request_name session) session))

abbrev pub user_document_name : String → String
user_document_name id = "docs/__us/" ⊕ id

abbrev time_or : Timestamp → Option Timestamp → Timestamp
time_or now none = now
time_or now (some t) = t

-- The participant's document, for the name that is the session's own.
unfoldable pub user_session_fields : GamesyncSession → Fields
user_session_fields session = field "uid" (string session.uid) (
    field "ussid" (integer session.sequence) (
      field "ucsid" (integer session.connection) (
        field "st" (integer (pos 2)) (
          field "tn" (string session.team) (
            field "att" (map_value (or_no_fields session.attributes))
              (field "ltc" (string session.latency_json) end))))))

unfoldable pub observed_user_session_document : Timestamp → String → GamesyncSession → Document
observed_user_session_document now name session = record {
  name = name;
  fields = some (user_session_fields session);
  create_time = time_or now session.created_at;
  update_time = time_or now session.created_at;
}

abbrev pub number_of : Option ℤ → ℤ
number_of none = pos 0
number_of (some n) = n

-- A session that is known keeps its numbers and its time; a new one is given the next number of its
-- game session.
unfoldable pub number_session :
    Timestamp → Gamesync → GamesyncSession → Option GamesyncSession → Gamesync × GamesyncSession
number_session now g session (some previous) = (
  g,
  record session {
    sequence = previous.sequence;
    connection = previous.connection;
    created_at = previous.created_at;
  },
)
number_session now g session none =
    let n = wrap64 (number_of (get g.next_sequence session.game_session) +ℤ pos 1) in
    (
      record g { next_sequence = put g.next_sequence session.game_session n },
      record session { sequence = n; connection = n; created_at = some now },
    )

abbrev pub filled : GamesyncSession → GamesyncSession
filled session = record session {
  attributes = some (or_no_fields session.attributes);
  latency_json = if session.latency_json == "" then "{\"latencies\":{}}" else session.latency_json;
}

-- Under both locks: the session and its document are stored.
unfoldable pub store_session : Timestamp → Gamesync × GamesyncSession → Gamesync
store_session now (g, session) =
    let id = last_resource_segment session.user_session in
    let name = user_document_name id in
    record g {
      sessions = put g.sessions id session;
      documents = put g.documents session.game_session (
          put (table g.documents session.game_session) name
            (observed_user_session_document now name session));
    }

abbrev joined_document : Timestamp → GamesyncSession → Document
joined_document now session =
    observed_user_session_document now
      (user_document_name (last_resource_segment session.user_session)) session

-- The subscribers of the game session learn of a session that was not known.
unfoldable pub remember_session : Timestamp → Gamesync → GamesyncSession → Gamesync × List Sent
remember_session now g session =
    let previous = get g.sessions (last_resource_segment session.user_session) in
    let numbered = number_session now g session previous in
    let full = filled numbered.1 in
    let stored = store_session now (numbered.0, full) in
    (
      stored,
      elim previous [
        | some _ ↦ []
        | none ↦
            publish_all (publish (joined_document now full)) (subscribers_of g session.game_session)
      ],
    )
