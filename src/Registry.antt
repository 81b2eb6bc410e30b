-- ===== src/Registry.antt =====
-- session_registry.go: the sessions that the matchmaking services share.
-- A `*GameSession` and a `*publicMatchSession` are one shared object each; the model names both by
-- the session's key in `sessions`, under which each is put when it is made and never taken out.
pub mod Depart
pub mod Members
use super_mario_bros_wonder.Base.{
  String, ℕ, ℤ, pos, Bool, true, false, not, ◌&&◌, Option, none, some, List, [], ◌∷◌, ◌==◌,
  if◌then◌else◌, Dict, get, put, keep, length, any, to_int32, eqb,
}
use super_mario_bros_wonder.Proto.{
  UserDefinition, UserSession, GameSession, GameSessionState, is_user_active,
}
use super_mario_bros_wonder.Names.{last_resource_segment, user_id_from_path}

-- matchmaking.go
pub record PublicMatchMember : Type 0 where
  pub definition : UserDefinition
  pub user_session : String
  pub match_token : String

-- matchmaking.go: `gameSession` is the session of the same key.
pub record PublicMatchSession : Type 0 where
  pub pool_key : String
  pub members : List PublicMatchMember

pub record SessionRegistry : Type 0 where
  pub sessions : Dict GameSession
  pub pooled : Dict PublicMatchSession

-- `GetUserSessions` of a pointer that may be nil.
abbrev pub user_sessions_of : Option GameSession → List UserSession
user_sessions_of none = []
user_sessions_of (some gs) = gs.user_sessions

abbrev pub is_active_user : String → UserSession → Bool
is_active_user uid u = (user_id_from_path u.user == uid) && is_user_active u.state

unfoldable pub session_has_uid : Option GameSession → String → Bool
session_has_uid session uid = any (is_active_user uid) (user_sessions_of session)

abbrev pub has_segment : String → String → Bool
has_segment name other = last_resource_segment name == last_resource_segment other

unfoldable pub find_member : List UserSession → String → String → Option UserSession
find_member [] user_session uid = none
find_member (u ∷ us) user_session uid =
    if has_segment u.name user_session && is_active_user uid u
    then some u
    else find_member us user_session uid

abbrev pub with_session : GameSession → Option UserSession → Option (GameSession × UserSession)
with_session gs none = none
with_session gs (some u) = some (gs, u)

unfoldable pub member :
    SessionRegistry → String → String → String → Option (GameSession × UserSession)
member r game_session user_session uid =
    elim (get r.sessions (last_resource_segment game_session)) [
      | none ↦ none
      | some gs ↦ with_session gs (find_member gs.user_sessions user_session uid)
    ]

-- The session without one user session. The last one out closes it.
unfoldable pub depart_session : GameSession → String → GameSession
depart_session gs user_session =
    let users = keep (λ u. not (has_segment u.name user_session)) gs.user_sessions in
    let closed = eqb (length users) 0 in
    record gs {
      user_sessions = users;
      current_participant_count = to_int32 (length users);
      can_participate = if closed then false else gs.can_participate;
      state = if closed then GameSessionState.terminated else gs.state;
    }

unfoldable pub depart_pool : PublicMatchSession → String → PublicMatchSession
depart_pool pool user_session = record pool {
  members = keep (λ m. not (has_segment m.user_session user_session)) pool.members;
}

unfoldable pub depart_pooled : Dict PublicMatchSession → String → String → Dict PublicMatchSession
depart_pooled pooled id user_session = elim (get pooled id) [
  | none ↦ pooled
  | some pool ↦ put pooled id (depart_pool pool user_session)
]

unfoldable pub depart : SessionRegistry → String → String → SessionRegistry
depart r game_session user_session =
    let id = last_resource_segment game_session in
    elim (get r.sessions id) [
      | none ↦ r
      | some gs ↦ record {
        sessions = put r.sessions id (depart_session gs user_session);
        pooled = depart_pooled r.pooled id user_session;
      }
    ]
