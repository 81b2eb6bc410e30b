-- ===== src/Sessions.antt =====
-- session_service.go: who may see a session, who may act on a ticket, and what a caller is shown.
pub mod Visible
pub mod Tokens
use super_mario_bros_wonder.Base.{
  String, ℕ, Bool, true, false, not, ◌&&◌, ◌||◌, Option, none, some, List, [], ◌∷◌, ◌==◌,
  if◌then◌else◌, invalid_argument, permission_denied, unimplemented, Result, ok, err, refuse_if,
  any, length, eqb, map,
}
use super_mario_bros_wonder.Proto.{
  UserDefinition, UserSession, GameSession, GameSessionView, basic, MatchedUserSession,
  is_session_active,
}
use super_mario_bros_wonder.Attributes.{lookup_field, string_value, matchmaking_string_attribute}
use super_mario_bros_wonder.Names.{last_resource_segment, user_id_from_path, npln_tenant}
use super_mario_bros_wonder.Tokens.{
  Codec, mint_gss_match_token, gamesync_attr_json, gamesync_latency_json,
}
use super_mario_bros_wonder.Registry.{session_has_uid}

-- `map[string]bool` of user ids
abbrev pub Friends : Type 0
Friends = List String

abbrev pub is_friend : Friends → String → Bool
is_friend friends uid = any (λ f. f == uid) friends

check_caller_definition : String → UserDefinition → Result (Unit {0})
check_caller_definition uid d =
    let u = last_resource_segment d.user in
    refuse_if (not (u == "") && not (u == "current") && not (u == uid)) permission_denied

unfoldable pub validate_caller_definitions : List UserDefinition → String → Result (Unit {0})
unfolding check_caller_definition
validate_caller_definitions (d ∷ []) uid = check_caller_definition uid d
validate_caller_definitions _ uid = err invalid_argument

unfoldable pub ticket_owned_by : List UserDefinition → String → Bool
ticket_owned_by (d ∷ []) uid = last_resource_segment d.user == uid
ticket_owned_by _ uid = false

unfoldable pub ticket_friend_room : List UserDefinition → String
ticket_friend_room [] = ""
ticket_friend_room (d ∷ ds) =
    let v = matchmaking_string_attribute d "FriendGameSessionId" in
    if v == "" then ticket_friend_room ds else last_resource_segment v

unfoldable pub room_visible : Option GameSession → String → Friends → Bool
room_visible none uid friends = false
room_visible (some gs) uid friends =
    if not (is_session_active gs.state)
    then false
    else if session_has_uid (some gs) uid
    then true
    else if not (string_value (lookup_field gs.properties "FriendGameSessionId") == "")
    then false
    else if gs.is_public
    then true
    else any (λ u. is_friend friends (user_id_from_path u.user)) gs.user_sessions

unfoldable pub safe_session_view : GameSession → GameSessionView → GameSession
safe_session_view gs basic = record gs { password = ""; user_sessions = [] }
safe_session_view gs _ = record gs { password = "" }

unfoldable pub include_matchmaking_id_token : List String → String → String → Bool
include_matchmaking_id_token [] definition_user caller_uid = false
include_matchmaking_id_token (include_user ∷ rest) definition_user caller_uid =
    let definition_uid = user_id_from_path definition_user in
    let include_uid = last_resource_segment include_user in
    (include_user == definition_user)
    || (include_uid == definition_uid)
    || ((include_uid == "current") && (definition_uid == caller_uid))
    || include_matchmaking_id_token rest definition_user caller_uid

-- `now` is in nanoseconds, as everywhere; the token's times are in seconds.
unfoldable pub matched_user :
    Codec → ℕ → GameSession → String → List String → UserSession → MatchedUserSession
matched_user codec unix gs uid include u = record {
  user_definition = record {
    user = u.user;
    attributes = u.attributes;
    latency_data = u.latency_data;
    team = u.team;
  };
  user_session = u.name;
  matchmaking_id_token =
      if (user_id_from_path u.user == uid) && include_matchmaking_id_token include u.user uid
      then mint_gss_match_token codec unix uid npln_tenant gs.name u.name u.team
          (gamesync_attr_json codec u.attributes) (gamesync_latency_json codec u.latency_data)
      else "";
}

unfoldable pub matched_for_caller :
    Codec → ℕ → GameSession → String → List String → List MatchedUserSession
matched_for_caller codec unix gs uid include =
    map (matched_user codec unix gs uid include) gs.user_sessions

-- The targets of a friend search, `current` being the caller.
abbrev pub search_target : String → String → String
search_target uid user =
    let target = last_resource_segment user in if target == "current" then uid else target

unfoldable pub check_targets : List String → String → Friends → Result (Unit {0})
check_targets [] uid friends = ok tt
check_targets (user ∷ users) uid friends =
    let target = search_target uid user in
    if (target == "") || not (is_friend friends target)
    then err permission_denied
    else check_targets users uid friends

unfoldable pub validate_search_config : String → List String → String → Friends → Result (Unit {0})
validate_search_config search_config users uid friends =
    let config = last_resource_segment search_config in
    if config == ""
    then ok tt
    else if not (config == "FriendSearch")
    then err unimplemented
    else if eqb (length users) 0
    then err invalid_argument
    else check_targets users uid friends
