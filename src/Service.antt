-- ===== src/Service.antt =====
-- session_service.go: the calls of the game session service on existing sessions.
pub mod Listing
pub mod Joining
use super_mario_bros_wonder.Base.{
  String, ℕ, ℤ, pos, Bool, true, false, not, ◌&&◌, ◌||◌, Option, none, some, List, [], ◌∷◌, ◌++◌,
  ◌==◌, ◌⊕◌, if◌then◌else◌, decimal, Dict, get, put, map, keys, Result, ok, err, Code,
  invalid_argument, not_found, permission_denied, resource_exhausted, ◌>>=◌, ◌>>◌, refuse_if, any,
  length, to_int32, wrap32, ltb_ℤ, leb_ℤ, ◌-ℤ◌, ltb, eqb, pos_part, str_le, insert_sorted, sort,
  split_once,
}
use super_mario_bros_wonder.Proto.{
  Value, Fields, end, field, UserDefinition, UserSession, UserSessionState, GameSession,
  GameSessionView, full, MatchedUserSession,
}
use super_mario_bros_wonder.Attributes.{lookup_field}
use super_mario_bros_wonder.Tokens.{fields_of}
use super_mario_bros_wonder.Names.{
  last_resource_segment, npln_tenant, user_path, valid_session_name,
}
use super_mario_bros_wonder.Auth.{Context, authenticated_npln_uid}
use super_mario_bros_wonder.Registry.{session_has_uid, has_segment}
use super_mario_bros_wonder.Sessions.{
  Friends, room_visible, safe_session_view, matched_for_caller, validate_caller_definitions,
  validate_search_config, search_target,
}
use super_mario_bros_wonder.Server.{Server, Env, Clock, set_session}
use super_mario_bros_wonder.Matchmaking.{Pool, add_public_match_members}
use super_mario_bros_wonder.Pools.{pool_at, set_pool_at}

abbrev pub or_not_found : Option GameSession → Result GameSession
or_not_found none = err not_found
or_not_found (some gs) = ok gs

-- The friends are asked for only where the answer can depend on them.
unfoldable pub viewer_friends : Env → Context → GameSession → String → Result Friends
viewer_friends env ctx gs uid =
    if not gs.is_public && not (session_has_uid (some gs) uid)
    then env.friend_uids ctx uid
    else ok (uid ∷ [])

unfoldable pub get_game_session :
    Env → Clock → Server → Context → String → GameSessionView → Result GameSession
get_game_session env clock s ctx name view = do
  uid ← authenticated_npln_uid env.verifier clock.unix ctx
  refuse_if (not (valid_session_name name)) invalid_argument
  gs ← or_not_found (get s.registry.sessions (last_resource_segment name))
  friends ← viewer_friends env ctx gs uid
  refuse_if (not (room_visible (some gs) uid friends)) not_found
  ok (safe_session_view gs view)

-- Each name is looked up under the lock anew; `s` is the state at that time.
unfoldable pub get_each :
    Env → Clock → Context → GameSessionView → List (Server × String) → Result (List GameSession)
get_each env clock ctx view [] = ok []
get_each env clock ctx view ((s, name) ∷ rest) = do
  gs ← get_game_session env clock s ctx name view
  more ← get_each env clock ctx view rest
  ok (gs ∷ more)

unfoldable pub batch_get_game_sessions :
    Env → Clock → Context → GameSessionView → List (Server × String) → Result (List GameSession)
batch_get_game_sessions env clock ctx view names = do
  refuse_if (ltb 100 (length names)) invalid_argument
  _ ← authenticated_npln_uid env.verifier clock.unix ctx
  get_each env clock ctx view names

pub record Query : Type 0 where
  pub tenant : String
  pub page_size : ℤ
  pub page_token : String
  pub min_vacancy_count : ℤ
  pub min_participant_count : ℤ
  pub properties : Option Fields
  pub users : List String
  pub view : GameSessionView
  pub search_config : String

pub record Page (A : Type 0) : Type 0 where
  pub items : List A
  pub next_page_token : String

-- Every property that is asked for is the session's; `equal` is `proto.Equal`.
unfoldable pub properties_match : (Value → Option Value → Bool) → Fields → Option Fields → Bool
properties_match equal end properties = true
properties_match equal (field k v fs) properties =
    equal v (lookup_field properties k) && properties_match equal fs properties

abbrev any_user : GameSession → String → List String → Bool
any_user gs uid users = any (λ user. session_has_uid (some gs) (search_target uid user)) users

-- The guards of the loop of QueryGameSessions, but for the page token.
unfoldable pub query_matches :
    (Value → Option Value → Bool) → String → Friends → Query → Option GameSession → Bool
query_matches equal uid friends q none = false
query_matches equal uid friends q (some gs) =
    room_visible (some gs) uid friends
    && gs.can_participate
    && not (
        ltb_ℤ (wrap32 (gs.max_participant_count -ℤ gs.current_participant_count))
          q.min_vacancy_count)
    && not (ltb_ℤ gs.current_participant_count q.min_participant_count)
    && properties_match equal (fields_of q.properties) gs.properties
    && (eqb (length q.users) 0 || any_user gs uid q.users)

-- A loop over sorted keys: behind the token, those that pass, until the page is full. `last` is
-- the token of the last item.
module _ {A : Type 0} (token : String) (found : String → Option A) (token_of : A → String) where
  unfoldable pub scan : ℕ → List String → List A → String → Page A
  scan limit [] out last = record { items = out; next_page_token = "" }
  scan limit (name ∷ names) out last = elim (if str_le name token then none else found name) [
    | none ↦ scan limit names out last
    | some a ↦
        let rest = scan limit names (out ++ (a ∷ [])) (token_of a) in
        if eqb (length out) limit then record { items = out; next_page_token = last } else rest
  ]

-- A page size of 0 is 20, and 100 is the most.
unfoldable pub query_limit : ℤ → ℕ
query_limit size =
    let limit = if eqb (pos_part size) 0 then 20 else pos_part size in
    if ltb 100 limit then 100 else limit

abbrev shown : GameSessionView → Bool → Option GameSession → Option GameSession
shown view true (some gs) = some (safe_session_view gs view)
shown view _ _ = none

unfoldable pub query_found :
    (Value → Option Value → Bool) → Server → String → Friends → Query → String → Option GameSession
query_found equal s uid friends q name =
    let gs = get s.registry.sessions name in shown q.view (query_matches equal uid friends q gs) gs

unfoldable pub query_game_sessions :
    (Value → Option Value → Bool)
    → Env
    → Clock
    → Server
    → Context
    → Query
    → Result (Page GameSession)
query_game_sessions equal env clock s ctx q = do
  uid ← authenticated_npln_uid env.verifier clock.unix ctx
  refuse_if
      (not (q.tenant == "") && not (q.tenant == "tenants/current") && not (q.tenant == npln_tenant))
      invalid_argument
  refuse_if
      (ltb_ℤ q.page_size (pos 0)
        || ltb_ℤ q.min_vacancy_count (pos 0)
        || ltb_ℤ q.min_participant_count (pos 0))
      invalid_argument
  friends ← env.friend_uids ctx uid
  validate_search_config q.search_config q.users uid friends
  ok (
      scan q.page_token (query_found equal s uid friends q) (λ gs. last_resource_segment gs.name)
        (query_limit q.page_size) (sort (keys s.registry.sessions)) [] "")

pub record JoinAnswer : Type 0 where
  pub game_session : GameSession
  pub matched_user_sessions : List MatchedUserSession

-- The first definition, under the caller's name.
abbrev pub joining_definition : String → List UserDefinition → UserDefinition
joining_definition uid [] = record {
  user = user_path uid;
  attributes = none;
  latency_data = none;
  team = "";
}
joining_definition uid (d ∷ _) = record d { user = user_path uid }

-- A user session in a room that no pool keeps; its name is by the clock alone.
unfoldable pub append_user : Clock → GameSession → UserDefinition → GameSession
append_user clock gs d =
    let users =
      gs.user_sessions
      ++ (record {
        name = gs.name ⊕ ("/userSessions" ⊕ ("/" ⊕ ("us-" ⊕ decimal clock.now)));
        user = d.user;
        latency_data = d.latency_data;
        create_time = clock.now;
        state = UserSessionState.active;
        team = d.team;
        attributes = d.attributes;
      }
          ∷ []) in
    record gs { user_sessions = users; current_participant_count = to_int32 (length users) }

unfoldable pub admit :
    Env
    → Clock
    → Server
    → String
    → GameSession
    → String
    → List UserDefinition
    → Server × GameSession
admit env clock s id gs uid definitions =
    let d = joining_definition uid definitions in
    elim (pool_at s.registry id) [
      | none ↦
          let joined = append_user clock gs d in
          (record s { registry = set_session s.registry id joined }, joined)
      | some pool ↦
          let joined = add_public_match_members env.codec clock pool (d ∷ []) uid in
          (record s { registry = set_pool_at s.registry id joined }, joined.session)
    ]

-- The password and the places, for one who is not in the room yet.
unfoldable pub check_entry : GameSession → String → Result (Unit {0})
check_entry gs password = do
  refuse_if (not (gs.password == "") && not (gs.password == password)) permission_denied
  refuse_if (not gs.can_participate || leb_ℤ gs.max_participant_count gs.current_participant_count)
      resource_exhausted

unfoldable pub check_join :
    Env → Clock → Context → String → List UserDefinition → Result (String × Friends)
check_join env clock ctx name definitions = do
  uid ← authenticated_npln_uid env.verifier clock.unix ctx
  refuse_if (not (valid_session_name name)) invalid_argument
  validate_caller_definitions definitions uid
  friends ← env.friend_uids ctx uid
  ok (uid, friends)

abbrev pub join_answer : Env → Clock → GameSession → String → List String → JoinAnswer
join_answer env clock gs uid include = record {
  game_session = safe_session_view gs full;
  matched_user_sessions = matched_for_caller env.codec clock.unix gs uid include;
}

-- Under the lock.
unfoldable pub join_session :
    Env
    → Clock
    → Server
    → String
    → Friends
    → String
    → String
    → List UserDefinition
    → List String
    → Server × Result JoinAnswer
join_session env clock s uid friends id password definitions include =
    elim (get s.registry.sessions id) [
      | none ↦ (s, err not_found)
      | some gs ↦
          if not (room_visible (some gs) uid friends)
          then (s, err not_found)
          else if session_has_uid (some gs) uid
          then (s, ok (join_answer env clock gs uid include))
          else elim (check_entry gs password) [
            | err c ↦ (s, err c)
            | ok _ ↦
                let (s', joined) = admit env clock s id gs uid definitions in
                (s', ok (join_answer env clock joined uid include))
          ]
    ]

unfoldable pub join_game_session :
    Env
    → Clock
    → Server
    → Context
    → String
    → String
    → List UserDefinition
    → List String
    → Server × Result JoinAnswer
join_game_session env clock s ctx name password definitions include =
    elim (check_join env clock ctx name definitions) [
      | err c ↦ (s, err c)
      | ok (uid, friends) ↦
          join_session env clock s uid friends (last_resource_segment name) password definitions
            include
    ]
