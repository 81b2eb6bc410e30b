-- ===== src/Gamesync/Issue.antt =====
-- gamesync.go, token_jwt.go: IssueToken, with the registry that main.go gives the server. The
-- users' names are ASCII. What other calls do between two holds of the lock is a parameter.
use super_mario_bros_wonder.Base.{
  String, ℕ, pos, Bool, true, false, not, ◌||◌, Option, none, some, List, ◌==◌, ◌⊕◌, ◌+◌,
  if◌then◌else◌, ltb, get, put, Result, ok, err, invalid_argument, permission_denied,
  unauthenticated, internal,
}
use super_mario_bros_wonder.Proto.{
  Fields, end, field, string, integer, bytes, GameSession, UserSession, Timestamp,
}
use super_mario_bros_wonder.Attributes.{lookup_field, string_value}
use super_mario_bros_wonder.Names.{last_resource_segment, npln_issuer, npln_tenant}
use super_mario_bros_wonder.Tokens.{
  Json, bool, int, str, arr, obj, no_items, item, no_members, member, Codec, gamesync_latency_json,
  text_or, trim_prefix,
}
use super_mario_bros_wonder.Registry.{SessionRegistry}
use super_mario_bros_wonder.Registry as Registry
use super_mario_bros_wonder.Gamesync.{GamesyncSession, Document}
use super_mario_bros_wonder.Gamesync.State.{Gamesync, table}
use super_mario_bros_wonder.Gamesync.Sessions.{
  GssMatchClaims, TokenReader, verify_gss_match_token, remember_session,
}
use super_mario_bros_wonder.Gamesync.Expiry.{schedule_disconnect}

-- What IssueToken is given from outside: the reader of tokens, the JSON and signature of a new one,
-- the setting of the seed's length, and random bytes.
pub record Issuer : Type 0 where
  pub reader : TokenReader
  pub codec : Codec
  pub seed_bytes : ℕ
  pub random : ℕ → Option (List ℕ)

-- The readings of the clock.
pub record IssueClock : Type 0 where
  pub unix : ℕ
  pub now : Timestamp

abbrev account_body : String → String
account_body String.[] = "a-nextendo"
account_body (String.◌∷◌ c s) = "a-a" ⊕ s

unfoldable pub account_id_from_user : String → String
account_id_from_user user_id = account_body (trim_prefix user_id "u-")

-- The payload of a session token, which lives for eight hours.
unfoldable pub session_claims : ℕ → String → String → String → String → Json
session_claims unix uid tenant gs_name user_sess = obj (
    member "exp" (int (pos (unix + 28800))) (
      member "iat" (int (pos unix)) (
        member "iss" (str npln_issuer) (
          member "sub" (str uid) (
            member "npln"
              (obj (
                member "aid" (str (account_id_from_user uid)) (
                  member "app_id" (str "010015100B514000") (
                    member "authorization"
                      (obj (
                        member "allow" (arr (item (str "**") no_items)) (
                          member "deny" (arr no_items)
                            (member "nso_restricted" (bool false) no_members))))
                      (member "ext_id_type" (int (pos 1))
                        (member "tid" (str (trim_prefix tenant "tenants/")) no_members))))))
              (member "gss"
                (obj (
                  member "game_session" (str gs_name)
                    (member "user_session" (str user_sess) no_members)))
                no_members))))))

abbrev pub session_header : Json
session_header = obj (
    member "alg" (str "ES256") (
      member "jku" (str "jwkSets/nplnAccessToken")
        (member "kid" (str "ba973ec6-wonder-4992-80bf-5f289ebbf566") no_members)))

unfoldable pub mint_session_token : Codec → ℕ → String → String → String → String → String
mint_session_token codec unix uid tenant gs_name user_sess =
    let subject = if uid == "" then "u-wonderdev1800000001" else uid in
    text_or "nextendo-gss.fallback"
      (codec.sign session_header (session_claims unix subject tenant gs_name user_sess))

fixed_fields : GameSession → List ℕ → Fields
fixed_fields gs seed = field "gsid" (string (last_resource_segment gs.name)) (
    field "addr" (string gs.host) (
      field "p" (integer gs.port) (
        field "mcn" (string (string_value (lookup_field gs.properties "_BaseConfigName")))
          (field "maxu" (integer gs.max_participant_count) (field "rs" (bytes seed) end)))))

fixed_document : Timestamp → GameSession → List ℕ → Document
unfolding fixed_fields
fixed_document now gs seed = record {
  name = "docs/__gs/f";
  fields = some (fixed_fields gs seed);
  create_time = now;
  update_time = now;
}

abbrev pub seed_of : Issuer → Option (List ℕ)
seed_of env =
    if ltb env.seed_bytes 16 || ltb 64 env.seed_bytes then none else env.random env.seed_bytes

-- The document of the game session's fixed data, which is made once; `false` is its error.
unfoldable pub initialize_fixed_data : Issuer → Timestamp → Gamesync → GameSession → Gamesync × Bool
unfolding fixed_document
initialize_fixed_data env now g gs =
    let docs = table g.documents gs.name in
    let with_table = record g { documents = put g.documents gs.name docs } in
    elim (get docs "docs/__gs/f") [
      | some _ ↦ (with_table, true)
      | none ↦ elim (seed_of env) [
        | none ↦ (with_table, false)
        | some seed ↦ (
          record g {
            documents =
                put g.documents gs.name (put docs "docs/__gs/f" (fixed_document now gs seed));
          },
          true,
        )
      ]
    ]

abbrev pub match_game_session : GssMatchClaims → String
match_game_session c = npln_tenant ⊕ ("/gameSessions/" ⊕ c.game_session_id)

-- The two names that the user session of a match token may be asked by.
unfoldable pub names_user_session : GssMatchClaims → String → Bool
names_user_session c requested =
    (requested == match_game_session c ⊕ ("/userSessions/" ⊕ c.user_session_id))
    || (requested == "userSessions/" ⊕ c.user_session_id)

-- The session that a match token and a membership make; its numbers are still to be given.
unfoldable pub matched_session : Codec → GssMatchClaims → String → UserSession → GamesyncSession
matched_session codec c requested user = record {
  uid = c.subject;
  game_session = match_game_session c;
  user_session = requested;
  team = c.team;
  sequence = pos 0;
  connection = pos 0;
  attributes = user.attributes;
  latency_json = gamesync_latency_json codec user.latency_data;
  created_at = none;
}

-- The last two holds of the lock: the session is remembered, and its first timer is set.
unfoldable pub admit_session :
    (Gamesync → Gamesync) → Timestamp → Gamesync → GamesyncSession → Gamesync
admit_session between now g session =
    schedule_disconnect (between (remember_session now g session).0)
      (last_resource_segment session.user_session)

unfoldable pub issue_for :
    Issuer
    → IssueClock
    → (Gamesync → Gamesync)
    → (Gamesync → Gamesync)
    → Gamesync
    → GssMatchClaims
    → String
    → GameSession × UserSession
    → Gamesync × Result String
issue_for env clock before between g c requested (gs, user) =
    let fixed = initialize_fixed_data env clock.now g gs in
    if fixed.1
    then (
      admit_session between clock.now (before fixed.0) (matched_session env.codec c requested user),
      ok (
          mint_session_token env.codec clock.unix c.subject npln_tenant (match_game_session c)
            requested),
    )
    else (fixed.0, err internal)

-- IssueToken: the state after it, and the access token, which is the refresh token as well.
unfoldable pub issue_token :
    Issuer
    → IssueClock
    → (Gamesync → Gamesync)
    → (Gamesync → Gamesync)
    → SessionRegistry
    → Gamesync
    → String
    → String
    → Gamesync × Result String
issue_token env clock before between r g match_token requested =
    elim (verify_gss_match_token env.reader clock.unix match_token) [
      | none ↦ (g, err unauthenticated)
      | some c ↦
          if not (names_user_session c requested)
          then (g, err invalid_argument)
          else elim (Registry.member r (match_game_session c) requested c.subject) [
            | none ↦ (g, err permission_denied)
            | some found ↦ issue_for env clock before between g c requested found
          ]
    ]
