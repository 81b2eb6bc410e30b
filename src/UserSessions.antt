-- ===== src/UserSessions.antt =====
-- session_service.go: the calls on the user sessions of a session, for its members.
pub mod Paging
use super_mario_bros_wonder.Base.{
  String, ℕ, zero, suc, ℤ, pos, Bool, true, false, not, ◌&&◌, ◌||◌, Option, none, some, List, [],
  ◌∷◌, ◌==◌, if◌then◌else◌, get, Result, ok, err, invalid_argument, not_found, permission_denied,
  ◌>>=◌, ◌>>◌, refuse_if, ltb_ℤ, pos_part, ltb, eqb, str_le, split_once,
}
use super_mario_bros_wonder.Proto.{UserSession, GameSession, full, MatchedUserSession}
use super_mario_bros_wonder.Names.{last_resource_segment, valid_session_name}
use super_mario_bros_wonder.Auth.{Context, authenticated_npln_uid}
use super_mario_bros_wonder.Registry.{session_has_uid, user_sessions_of, has_segment}
use super_mario_bros_wonder.Sessions.{safe_session_view, matched_for_caller}
use super_mario_bros_wonder.Server.{Server, Env, Clock}
use super_mario_bros_wonder.Service.{Page, JoinAnswer, or_not_found}

-- Every user that a token is asked for is the caller.
unfoldable pub check_delegation : String → List String → Result (Unit {0})
check_delegation uid [] = ok tt
check_delegation uid (u ∷ us) =
    if not (last_resource_segment u == "current") && not (last_resource_segment u == uid)
    then err permission_denied
    else check_delegation uid us

-- Membership of the session of a name, as the code tests it also where there is no session.
unfoldable pub member_session : Server → String → String → Result GameSession
member_session s id uid = do
  let found = get s.registry.sessions id
  refuse_if (not (session_has_uid found uid)) permission_denied
  or_not_found found

unfoldable pub issue_matchmaking_id_token :
    Env → Clock → Server → Context → String → List String → List String → Result JoinAnswer
issue_matchmaking_id_token env clock s ctx game_session users include = do
  uid ← authenticated_npln_uid env.verifier clock.unix ctx
  refuse_if (not (valid_session_name game_session)) invalid_argument
  check_delegation uid users
  gs ← member_session s (last_resource_segment game_session) uid
  ok (record {
    game_session = safe_session_view gs full;
    matched_user_sessions = matched_for_caller env.codec clock.unix gs uid include;
  })

-- `sort.Slice` by name; the order of equal names is not specified by Go.
unfoldable pub insert_by_name : UserSession → List UserSession → List UserSession
insert_by_name u [] = u ∷ []
insert_by_name u (v ∷ vs) = if str_le u.name v.name then u ∷ v ∷ vs else v ∷ insert_by_name u vs

unfoldable pub sort_by_name : List UserSession → List UserSession
sort_by_name [] = []
sort_by_name (u ∷ us) = insert_by_name u (sort_by_name us)

-- The loop of ListUserSessions: `room` places are left on the page, `last` is the last name on it.
unfoldable pub fill_page : String → ℕ → String → List UserSession → List UserSession × String
fill_page token room last [] = ([], "")
fill_page token zero last (u ∷ us) = elim (str_le u.name token) [
  | true ↦ fill_page token zero last us
  | false ↦ ([], last)
]
fill_page token (suc room) last (u ∷ us) = elim (str_le u.name token) [
  | true ↦ fill_page token (suc room) last us
  | false ↦ let rest = fill_page token room u.name us in (u ∷ rest.0, rest.1)
]

-- A page size of 0 or above 100 is 100.
unfoldable pub list_limit : ℤ → ℕ
list_limit size = if eqb (pos_part size) 0 || ltb 100 (pos_part size) then 100 else pos_part size

abbrev as_page : List UserSession × String → Page UserSession
as_page (items, token) = record { items = items; next_page_token = token }

unfoldable pub list_user_sessions :
    Env → Clock → Server → Context → String → ℤ → String → Result (Page UserSession)
list_user_sessions env clock s ctx parent page_size page_token = do
  uid ← authenticated_npln_uid env.verifier clock.unix ctx
  refuse_if (not (valid_session_name parent)) invalid_argument
  refuse_if (ltb_ℤ page_size (pos 0)) invalid_argument
  gs ← member_session s (last_resource_segment parent) uid
  ok (as_page (fill_page page_token (list_limit page_size) "" (sort_by_name gs.user_sessions)))

unfoldable pub find_named : List UserSession → String → Result UserSession
find_named [] name = err not_found
find_named (u ∷ us) name = if has_segment u.name name then ok u else find_named us name

abbrev parent_of : Option (String × String) → Result String
parent_of none = err invalid_argument
parent_of (some (parent, _)) = ok parent

unfoldable pub get_user_session : Env → Clock → Server → Context → String → Result UserSession
get_user_session env clock s ctx name = do
  parent ← parent_of (split_once "/userSessions/" name)
  page ← list_user_sessions env clock s ctx parent (pos 0) ""
  find_named page.items name
