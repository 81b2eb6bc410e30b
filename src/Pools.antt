-- ===== src/Pools.antt =====
-- matchmaking.go: the choice of a session for a ticket (newPublicMatchSessionLocked,
-- selectPublicMatchSessionLocked).
pub mod Select
use super_mario_bros_wonder.Base.{
  String, ℕ, ℤ, pos, Bool, true, false, not, ◌&&◌, ◌||◌, Option, none, some, List, [], ◌∷◌, ◌++◌,
  ◌==◌, ◌⊕◌, ◌+◌, ◌%◌, if◌then◌else◌, length, to_int32, wrap32, ltb_ℤ, ◌+ℤ◌, decimal, Dict, get,
  put,
}
use super_mario_bros_wonder.Proto.{
  Fields, string, UserDefinition, GameSession, GameSessionState, is_session_active,
}
use super_mario_bros_wonder.Attributes.{put_field}
use super_mario_bros_wonder.Names.{last_resource_segment, npln_tenant}
use super_mario_bros_wonder.Registry.{SessionRegistry, PublicMatchSession}
use super_mario_bros_wonder.Sessions.{ticket_friend_room}
use super_mario_bros_wonder.Server.{Server, Settings, Clock, set_pool}
use super_mario_bros_wonder.Matchmaking.{
  Pool, public_match_has_uid, public_match_capacity, public_match_pool_key, matching_key,
  merge_matchmaking_session_properties,
}

unfoldable pub join_pool : Option GameSession → Option PublicMatchSession → Option Pool
join_pool (some gs) (some pool) =
    some (record { session = gs; pool_key = pool.pool_key; members = pool.members })
join_pool _ _ = none

-- The pooled session behind a key.
unfoldable pub pool_at : SessionRegistry → String → Option Pool
unfolding join_pool
pool_at r id = join_pool (get r.sessions id) (get r.pooled id)

-- Writing a pooled session back.
abbrev pub set_pool_at : SessionRegistry → String → Pool → SessionRegistry
set_pool_at r id p = set_pool r id p.session (record { pool_key = p.pool_key; members = p.members })

abbrev pub is_joined : String → Option Pool → Bool
is_joined uid none = false
is_joined uid (some p) = is_session_active p.session.state && public_match_has_uid p.members uid

-- current + required <= max, with the sum in int32
abbrev pub has_room : ℤ → Option Pool → Bool
has_room required none = false
has_room required (some p) =
    is_session_active p.session.state
    && not (
        ltb_ℤ p.session.max_participant_count
          (wrap32 (p.session.current_participant_count +ℤ required)))

-- The first key of a pool whose session passes a test.
unfoldable pub find_session : SessionRegistry → (Option Pool → Bool) → List String → Option String
find_session r test [] = none
find_session r test (id ∷ ids) = if test (pool_at r id) then some id else find_session r test ids

abbrev pub keys_of : Option (List String) → List String
keys_of none = []
keys_of (some ids) = ids

unfoldable pub pool_keys : Server → String → List String
pool_keys s pool_key = keys_of (get s.sessions_by_pool pool_key)

unfoldable pub required_slots : List UserDefinition → ℤ
required_slots definitions =
    let n = to_int32 (length definitions) in if ltb_ℤ n (pos 1) then pos 1 else n

abbrev pub session_id : ℕ → ℕ → String
session_id now n = "gs-" ⊕ (decimal now ⊕ ("-" ⊕ decimal n))

abbrev pub session_path : String → String
session_path id = npln_tenant ⊕ ("/gameSessions" ⊕ ("/" ⊕ id))

-- The properties of a pooled session: the server's two, the matching key and the friend room.
unfoldable pub pool_properties : String → List UserDefinition → Fields
pool_properties config definitions =
    let base = merge_matchmaking_session_properties config none in
    let key = matching_key definitions in
    let keyed = if key == "" then base else put_field base "MatchingKey" (string key) in
    let room = ticket_friend_room definitions in
    if room == "" then keyed else put_field keyed "FriendGameSessionId" (string room)

unfoldable pub fresh_session : Settings → ℕ → String → String → List UserDefinition → GameSession
fresh_session settings now gs_name config definitions = record {
  name = gs_name;
  max_participant_count = public_match_capacity settings config;
  current_participant_count = pos 0;
  can_participate = true;
  is_public = ticket_friend_room definitions == "";
  password = "";
  state = GameSessionState.active;
  host = settings.gamesession_host;
  port = to_int32 settings.gamesession_port;
  create_time = now;
  properties = some (pool_properties config definitions);
  user_sessions = [];
}

-- The new session's key comes back beside the state.
unfoldable pub new_public_match_session :
    Settings → ℕ → Server → String → List UserDefinition → String → Server × String
new_public_match_session settings now s config definitions pool_key =
    let n = (s.next_match_id + 1) % 18446744073709551616 in
    let gs_name = session_path (session_id now n) in
    let id = last_resource_segment gs_name in
    (
      record s {
        next_match_id = n;
        sessions_by_pool = put s.sessions_by_pool pool_key (pool_keys s pool_key ++ (id ∷ []));
        registry =
            set_pool s.registry id (fresh_session settings now gs_name config definitions)
              (record { pool_key = pool_key; members = [] });
      },
      id,
    )

unfoldable pub or_else : Server × String → Server → Option String → Server × String
or_else fresh s none = fresh
or_else fresh s (some id) = (s, id)

-- A session that the caller is in already, else one with room, else a new one.
unfoldable pub select_public_match_session :
    Settings → ℕ → Server → String → List UserDefinition → String → Server × String
unfolding or_else
select_public_match_session settings now s config definitions caller_uid =
    let pool_key = public_match_pool_key config definitions in
    let ids = pool_keys s pool_key in
    let fresh = new_public_match_session settings now s config definitions pool_key in
    or_else (or_else fresh s (find_session s.registry (has_room (required_slots definitions)) ids))
      s (find_session s.registry (is_joined caller_uid) ids)
