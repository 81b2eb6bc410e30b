-- ===== src/Matchmaking.antt =====
-- matchmaking.go: definitions of users, pools and their members.
pub mod Members
use super_mario_bros_wonder.Base.{
  String, ℕ, ℤ, pos, Bool, true, false, not, ◌&&◌, ◌||◌, Option, none, some, List, [], ◌∷◌, ◌++◌,
  ◌==◌, ◌⊕◌, ◌+◌, if◌then◌else◌, any, length, to_int32, ltb_ℤ, ltb, eqb, decimal, has_prefix,
}
use super_mario_bros_wonder.Proto.{
  Fields, end, string, UserDefinition, UserSession, UserSessionState, GameSession,
}
use super_mario_bros_wonder.Attributes.{put_field, matchmaking_string_attribute}
use super_mario_bros_wonder.Names.{
  last_resource_segment, user_id_from_path, concrete_resource, npln_tenant, user_path,
}
use super_mario_bros_wonder.Tokens.{
  Codec, mint_gss_match_token, gamesync_attr_json, gamesync_latency_json, fields_of,
}
use super_mario_bros_wonder.Auth.{Context, uid_from_ctx}
use super_mario_bros_wonder.Registry.{PublicMatchMember}
use super_mario_bros_wonder.Sessions.{ticket_friend_room}
use super_mario_bros_wonder.Server.{Settings, Clock}

unfoldable pub clone_user_definition_for_caller : Context → UserDefinition → UserDefinition
clone_user_definition_for_caller ctx d =
    let uid = uid_from_ctx ctx in
    if not (uid == "")
    then record d { user = user_path uid }
    else if not (d.user == "")
    then record d { user = concrete_resource "users" d.user }
    else d

unfoldable pub merge_matchmaking_session_properties : String → Option Fields → Fields
merge_matchmaking_session_properties config requested =
    put_field
      (put_field (fields_of requested) "_BaseConfigName" (string (last_resource_segment config)))
      "_AliasSuffix" (string "")

-- The first non-empty MatchingKey of the definitions.
unfoldable pub matching_key : List UserDefinition → String
matching_key [] = ""
matching_key (d ∷ ds) =
    let key = matchmaking_string_attribute d "MatchingKey" in
    if not (key == "") then key else matching_key ds

unfoldable pub public_match_pool_key : String → List UserDefinition → String
public_match_pool_key config definitions =
    config ⊕ ("\0" ⊕ (matching_key definitions ⊕ ("\0" ⊕ ticket_friend_room definitions)))

unfoldable pub public_match_capacity : Settings → String → ℤ
public_match_capacity settings config =
    let segment = last_resource_segment config in
    if ltb 0 settings.match_max_participants
    then to_int32 settings.match_max_participants
    else if has_prefix segment "WorldMapMatch"
        || has_prefix segment "FriendWorldMapMatch"
        || has_prefix segment "FriendMatch"
    then pos 12
    else pos 4

unfoldable pub public_match_has_uid : List PublicMatchMember → String → Bool
public_match_has_uid members uid = any (λ m. user_id_from_path m.definition.user == uid) members

-- A pooled session while it is written: the shared GameSession and the members of its pool.
pub record Pool : Type 0 where
  pub session : GameSession
  pub pool_key : String
  pub members : List PublicMatchMember

abbrev pub member_name : GameSession → ℕ → ℕ → String
member_name gs now sequence =
    gs.name ⊕ ("/userSessions" ⊕ ("/" ⊕ ("us-" ⊕ (decimal now ⊕ ("-" ⊕ decimal sequence)))))

-- A definition with no user is the caller's.
abbrev pub named_definition : UserDefinition → String → UserDefinition
named_definition d caller_uid =
    if user_id_from_path d.user == "" then record d { user = user_path caller_uid } else d

abbrev pub definition_uid : UserDefinition → String → String
definition_uid d caller_uid =
    let uid = user_id_from_path d.user in if uid == "" then caller_uid else uid

-- The counts behind the loop.
unfoldable pub recount : Pool → Pool
recount pool =
    let count = to_int32 (length pool.members) in
    record pool {
      session = record (pool.session) {
        max_participant_count =
            if ltb_ℤ pool.session.max_participant_count count
            then count
            else pool.session.max_participant_count;
        current_participant_count = count;
      };
    }

abbrev pub or_caller : String → List UserDefinition → List UserDefinition
or_caller caller_uid [] =
    record { user = user_path caller_uid; attributes = none; latency_data = none; team = "" } ∷ []
or_caller caller_uid (d ∷ ds) = d ∷ ds

module _ (codec : Codec) (clock : Clock) where
  unfoldable pub new_member : GameSession → ℕ → String → UserDefinition → PublicMatchMember
  new_member gs sequence uid d =
      let us_name = member_name gs clock.now sequence in
      record {
        definition = d;
        user_session = us_name;
        match_token =
            mint_gss_match_token codec clock.unix uid npln_tenant gs.name us_name d.team
              (gamesync_attr_json codec d.attributes) (gamesync_latency_json codec d.latency_data);
      }

  unfoldable pub new_user_session : GameSession → ℕ → UserDefinition → UserSession
  new_user_session gs sequence d = record {
    name = member_name gs clock.now sequence;
    user = d.user;
    latency_data = d.latency_data;
    create_time = clock.now;
    state = UserSessionState.active;
    team = d.team;
    attributes = d.attributes;
  }

  -- One round of the loop of addPublicMatchMembers.
  unfoldable pub add_member : Pool → String → UserDefinition → Pool
  add_member pool caller_uid supplied =
      let d = named_definition supplied caller_uid in
      let uid = definition_uid supplied caller_uid in
      let sequence = length pool.members + 1 in
      if public_match_has_uid pool.members uid then pool else record pool {
        session = record (pool.session) {
          user_sessions =
              pool.session.user_sessions ++ (new_user_session pool.session sequence d ∷ []);
        };
        members = pool.members ++ (new_member pool.session sequence uid d ∷ []);
      }

  unfoldable pub add_members : Pool → String → List UserDefinition → Pool
  add_members pool caller_uid [] = pool
  add_members pool caller_uid (d ∷ ds) = add_members (add_member pool caller_uid d) caller_uid ds

  unfoldable pub add_public_match_members : Pool → List UserDefinition → String → Pool
  add_public_match_members pool definitions caller_uid =
      if public_match_has_uid pool.members caller_uid
      then pool
      else recount (add_members pool caller_uid (or_caller caller_uid definitions))
