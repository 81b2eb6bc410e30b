-- ===== src/Examples/Calls.antt =====
-- The theorems on single calls, on a small room.
use super_mario_bros_wonder.Base.{
  String, ◌≡◌, ◌≢◌, ◌↔◌, refl, ◌<◌, arith, some, none, List, [], ◌∷◌, ok, err, get, put, delete,
  eq_iff, strip_prefix_fold, trim_space, split, strip_prefix, after_last_slash, decimal, to_int32,
  wrap32, pos, true, false, All, length, take, ltb, if◌then◌else◌, Option, not_found,
}
use super_mario_bros_wonder.Auth.{
  authenticated_npln_uid, bearer_token, signed_claims, valid_claims, uid_from_ctx,
}
use super_mario_bros_wonder.Auth.Identity.{IsAuthentic, authenticated_npln_uid_iff}
use super_mario_bros_wonder.Names.{
  last_resource_segment, user_id_from_path, user_path, valid_session_name,
}
use super_mario_bros_wonder.Names.Segments.{IsSegment, user_id_from_path-user_path}
use super_mario_bros_wonder.Proto.{GameSession, full}
use super_mario_bros_wonder.Registry.{member, depart, session_has_uid, depart_session}
use super_mario_bros_wonder.Registry.Depart.{member_found, member-depart, member-depart_ne}
use super_mario_bros_wonder.Sessions.{
  room_visible, safe_session_view, matched_for_caller, validate_search_config, ticket_friend_room,
}
use super_mario_bros_wonder.Sessions.Visible.{
  IsVisible, IsSearch, room_visible_iff, validate_search_config_iff,
}
use super_mario_bros_wonder.Sessions.Tokens.{IsOwnToken, matched_for_caller-tokens}
use super_mario_bros_wonder.Server.{Server, new_server}
use super_mario_bros_wonder.Matchmaking.{
  Pool, add_public_match_members, add_members, add_member, public_match_has_uid, new_user_session,
  new_member, recount, public_match_capacity, public_match_pool_key,
  merge_matchmaking_session_properties, matching_key,
}
use super_mario_bros_wonder.Matchmaking.Members.{IsPool, add_public_match_members-IsPool}
use super_mario_bros_wonder.Pools.{
  select_public_match_session, find_session, pool_keys, new_public_match_session, or_else, pool_at,
  join_pool, fresh_session, pool_properties,
}
use super_mario_bros_wonder.Tickets.{
  check_owner, cancel_matchmaking_ticket, complete_matchmaking_ticket, complete_stored,
  store_ticket, ticket_uid, place_ticket, place_pool,
}
use super_mario_bros_wonder.Tickets.Complete.{
  IsOwner, check_owner_iff, complete_matchmaking_ticket-cancel_matchmaking_ticket,
}
use super_mario_bros_wonder.Rooms.{empty_session, or_empty_session}
use super_mario_bros_wonder.Attributes.{put_field, get_field, matchmaking_string_attribute}
use super_mario_bros_wonder.Service.{
  Page, scan, get_game_session, check_entry, join_session, join_answer, JoinAnswer, admit,
}
use super_mario_bros_wonder.Service.Listing.{
  collect, last_token, scan-page, IsLookup, get_game_session-IsLookup,
}
use super_mario_bros_wonder.Service.Joining.{
  join_session-session_has_uid, join_session-join_session, join_session-depart,
}
use super_mario_bros_wonder.UserSessions.{fill_page}
use super_mario_bros_wonder.UserSessions.Paging.{behind, last_name, fill_page-eq}
use super_mario_bros_wonder.Invariant.{IsRegistry}
use super_mario_bros_wonder.Invariant.Departures.{depart-IsRegistry}
use super_mario_bros_wonder.Invariant.Tickets.{OpensAt, select-OpensAt}
use super_mario_bros_wonder.Examples.{
  env, clock, ann, one_definition, ticket_name, searching, placed, seated, room, house,
}
use super_mario_bros_wonder.Examples.Core.{bound, ann-IsSegment, placed-IsServer}

authenticated_npln_uid_iff_example :
    (authenticated_npln_uid env.verifier 1000 ann ≡ ok "ann")
    ↔ IsAuthentic env.verifier 1000 ann "ann"
authenticated_npln_uid_iff_example = authenticated_npln_uid_iff env.verifier 1000 ann "ann"

room_visible_iff_example : (room_visible (some room) "bob" [] ≡ true) ↔ IsVisible room "bob" []
room_visible_iff_example = room_visible_iff room "bob" []

validate_search_config_iff_example :
    (validate_search_config "FriendSearch" ("users/bob" ∷ []) "ann" ("bob" ∷ []) ≡ ok tt)
    ↔ IsSearch "FriendSearch" ("users/bob" ∷ []) "ann" ("bob" ∷ [])
validate_search_config_iff_example =
    validate_search_config_iff "FriendSearch" ("users/bob" ∷ []) "ann" ("bob" ∷ [])

matched_for_caller-tokens_example :
    All (IsOwnToken "ann") (matched_for_caller env.codec 1000 room "ann" ("users/bob" ∷ []))
matched_for_caller-tokens_example =
    matched_for_caller-tokens env.codec 1000 room "ann" ("users/bob" ∷ [])

member-depart_example :
    member (depart house.registry "gameSessions/gs-1" "us-1") "gameSessions/gs-1" "us-1" "ann"
    ≡ none
member-depart_example = member-depart house.registry "gameSessions/gs-1" "us-1" "ann"

segments_differ : last_resource_segment "us-2" ≢ last_resource_segment "us-1"
unfolding last_resource_segment after_last_slash
segments_differ e = cc ((eq_iff "us-2" "us-1").1 e)

member-depart_ne_example :
    member_found (member (depart house.registry "gs-1" "us-2") "gs-1" "us-1" "ann")
    ≡ member_found (member house.registry "gs-1" "us-1" "ann")
member-depart_ne_example =
    member-depart_ne house.registry "gs-1" "us-2" "gs-1" "us-1" "ann" segments_differ

user_id_from_path-user_path_example : user_id_from_path (user_path "ann") ≡ "ann"
user_id_from_path-user_path_example = user_id_from_path-user_path "ann" ann-IsSegment

abbrev empty_pool : Pool
empty_pool = record { session = empty_session; pool_key = "k"; members = [] }

empty_pool-IsPool : IsPool empty_pool
unfolding to_int32
empty_pool-IsPool = record { aligned = tt; distinct = tt; counted = refl; fits = omega arith }

add_public_match_members-IsPool_example :
    IsPool (add_public_match_members env.codec clock empty_pool one_definition "ann")
add_public_match_members-IsPool_example =
    add_public_match_members-IsPool env.codec clock empty_pool one_definition "ann" ann-IsSegment
      empty_pool-IsPool

check_owner_iff_example :
    (check_owner env clock searching ann ticket_name ≡ ok "ann")
    ↔ (IsAuthentic env.verifier 1000 ann "ann" × IsOwner searching ticket_name "ann")
check_owner_iff_example = check_owner_iff env clock searching ann ticket_name "ann"

scan-page_example : scan "a" (λ k. some k) (λ k. k) 1 ("a" ∷ "b" ∷ "c" ∷ []) [] "" ≡ record {
  items = take 1 (collect "a" (λ k. some k) (λ k. k) ("a" ∷ "b" ∷ "c" ∷ []));
  next_page_token =
      if ltb 1 (length (collect "a" (λ k. some k) (λ k. k) ("a" ∷ "b" ∷ "c" ∷ [])))
      then last_token "a"
          (λ k. some k)
          (λ k. k)
          ""
          (take 1 (collect "a" (λ k. some k) (λ k. k) ("a" ∷ "b" ∷ "c" ∷ [])))
      else "";
}
scan-page_example = scan-page "a" (λ k. some k) (λ k. k) 1 ("a" ∷ "b" ∷ "c" ∷ [])

fill_page-eq_example : fill_page "" 1 "" (seated ∷ []) ≡ (
  take 1 (behind "" (seated ∷ [])),
  if ltb 1 (length (behind "" (seated ∷ [])))
      then last_name "" (take 1 (behind "" (seated ∷ [])))
      else "",
)
fill_page-eq_example = fill_page-eq "" 1 "" (seated ∷ [])

depart-IsRegistry_example : IsRegistry (depart placed.registry "gs-5-1" "us-5-1")
depart-IsRegistry_example =
    depart-IsRegistry placed.registry "gs-5-1" "us-5-1" placed-IsServer.registry

select-OpensAt_example :
    let chosen = select_public_match_session env.settings 5 placed "Course" one_definition "bob" in
    OpensAt chosen.0.registry "bob" chosen.1
select-OpensAt_example =
    select-OpensAt env.settings 5 placed "Course" one_definition "bob" bound refl

house-room : get house.registry.sessions (last_resource_segment "gs-1") ≡ some room
unfolding get last_resource_segment after_last_slash house
house-room = refl

ann-seated : session_has_uid (some room) "ann" ≡ true
unfolding session_has_uid user_id_from_path after_last_slash
ann-seated = refl

last_out : (depart_session room "us-1").user_sessions ≡ []
unfolding depart_session last_resource_segment after_last_slash
last_out = refl

join_session-depart_example :
    let s' : Server = record house { registry = depart house.registry "gs-1" "us-1" } in
    join_session env clock s' "bob" [] (last_resource_segment "gs-1") "pw" one_definition []
    ≡ (s', err not_found)
join_session-depart_example =
    join_session-depart env clock house "gs-1" "us-1" room "bob" [] "pw" one_definition []
      house-room last_out

abbrev house_name : String
house_name = "tenants/current/gameSessions/gs-1"

looked_up : get_game_session env clock house ann house_name full ≡ ok (safe_session_view room full)
unfolding get_game_session authenticated_npln_uid bearer_token strip_prefix_fold trim_space
    signed_claims split valid_claims uid_from_ctx valid_session_name strip_prefix get
    last_resource_segment after_last_slash session_has_uid user_id_from_path room_visible
    super_mario_bros_wonder.Base.slashes house super_mario_bros_wonder.Service.viewer_friends
looked_up = refl

get_game_session-IsLookup_example :
    IsLookup env clock house ann house_name full (safe_session_view room full)
get_game_session-IsLookup_example =
    get_game_session-IsLookup env clock house ann house_name full (safe_session_view room full)
      looked_up

abbrev cancelled : Server
cancelled = record searching {
  tickets = delete searching.tickets (last_resource_segment ticket_name);
}

cancels : cancel_matchmaking_ticket env clock searching ann ticket_name ≡ (cancelled, ok tt)
unfolding cancel_matchmaking_ticket check_owner authenticated_npln_uid bearer_token
    strip_prefix_fold trim_space signed_claims split valid_claims uid_from_ctx get
    last_resource_segment after_last_slash super_mario_bros_wonder.Sessions.ticket_owned_by
    searching put new_server decimal
cancels = refl

complete_matchmaking_ticket-cancel_matchmaking_ticket_example :
    complete_matchmaking_ticket env clock cancelled ann ticket_name [] ≡ (cancelled, none)
complete_matchmaking_ticket-cancel_matchmaking_ticket_example =
    complete_matchmaking_ticket-cancel_matchmaking_ticket env clock clock searching cancelled ann
      ann ticket_name [] cancels

abbrev placed_session : GameSession
unfolding get placed
placed_session = or_empty_session (get placed.registry.sessions "gs-5-1")

abbrev bob_joined : Server × GameSession
unfolding admit
bob_joined = admit env clock placed "gs-5-1" placed_session "bob" one_definition

bob-IsSegment : IsSegment "bob"
unfolding after_last_slash
bob-IsSegment = refl

joins :
    join_session env clock placed "bob" [] "gs-5-1" "" one_definition []
    ≡ (bob_joined.0, ok (join_answer env clock bob_joined.1 "bob" []))
unfolding join_session room_visible session_has_uid check_entry get put placed
    complete_matchmaking_ticket complete_stored searching new_server store_ticket
    last_resource_segment after_last_slash decimal ticket_uid uid_from_ctx user_id_from_path
    placed_session bob_joined select_public_match_session find_session pool_keys
    public_match_pool_key new_public_match_session or_else pool_at join_pool fresh_session
    place_ticket place_pool add_public_match_members add_members add_member public_match_has_uid
    new_user_session new_member recount to_int32 public_match_capacity pool_properties
    merge_matchmaking_session_properties matching_key ticket_friend_room
    matchmaking_string_attribute put_field get_field
joins = refl

join_session-session_has_uid_example :
    (gs : GameSession) × (get bob_joined.0.registry.sessions "gs-5-1" ≡ some gs)
    × (session_has_uid (some gs) "bob" ≡ true)
    × (join_answer env clock bob_joined.1 "bob" [] ≡ join_answer env clock gs "bob" [])
join_session-session_has_uid_example =
    join_session-session_has_uid env clock placed bob_joined.0 "bob" [] "gs-5-1" "" one_definition
      [] (join_answer env clock bob_joined.1 "bob" []) bob-IsSegment placed-IsServer joins

join_session-join_session_example :
    (again : JoinAnswer) × (join_session env clock bob_joined.0 "bob"
        ("ann" ∷ [])
        "gs-5-1"
        "other"
        []
        ("users/ann" ∷ [])
      ≡ (bob_joined.0, ok again))
    × (again.game_session ≡ (join_answer env clock bob_joined.1 "bob" []).game_session)
join_session-join_session_example =
    join_session-join_session env clock clock placed bob_joined.0 "bob" [] ("ann" ∷ []) "gs-5-1" ""
      "other" one_definition [] [] ("users/ann" ∷ []) (join_answer env clock bob_joined.1 "bob" [])
      bob-IsSegment placed-IsServer joins
