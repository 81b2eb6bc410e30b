-- ===== src/Examples/Core.antt =====
-- The theorems on the shared state, on a ticket that is stored and completed.
use super_mario_bros_wonder.Base.{
  ◌≡◌, refl, ◌<◌, arith, some, none, [], ok, get, eq_iff, ◌≢◌, put, strip_prefix_fold, trim_space,
  split, strip_prefix, after_last_slash, decimal,
}
use super_mario_bros_wonder.Auth.{
  authenticated_npln_uid, bearer_token, signed_claims, valid_claims, uid_from_ctx,
}
use super_mario_bros_wonder.Names.{last_resource_segment, concrete_resource, user_id_from_path}
use super_mario_bros_wonder.Names.Segments.{IsSegment}
use super_mario_bros_wonder.Attributes.{matchmaking_string_attribute, get_field, put_field}
use super_mario_bros_wonder.Sessions.{validate_caller_definitions, ticket_friend_room}
use super_mario_bros_wonder.Matchmaking.{clone_user_definition_for_caller}
use super_mario_bros_wonder.Server.{new_server}
use super_mario_bros_wonder.Tickets.{
  ticket_uid, check_owner, complete_matchmaking_ticket, prepare_ticket, authorize_friend_pool,
  store_ticket,
}
use super_mario_bros_wonder.Invariant.{IsServer, int32_max}
use super_mario_bros_wonder.Invariant.Steps.{
  store_match, complete_match, Reach, here, next, Reach-IsServer,
}
use super_mario_bros_wonder.Tickets.Placed.{IsMatched, complete_matchmaking_ticket-IsMatched}
use super_mario_bros_wonder.Tickets.Complete.{store_ticket-check_owner}
use super_mario_bros_wonder.Examples.{
  env, clock, ann, supplied, ticket, named_ticket, matched_definition, searching, ticket_name,
  placed,
}

pub bound : env.settings.match_max_participants < int32_max
bound = omega arith

pub ann-IsSegment : IsSegment "ann"
unfolding after_last_slash
ann-IsSegment = refl

pub authenticated : authenticated_npln_uid env.verifier 1000 ann ≡ ok "ann"
unfolding authenticated_npln_uid bearer_token strip_prefix_fold trim_space signed_claims split
    valid_claims uid_from_ctx
authenticated = refl

pub prepared : prepare_ticket env clock new_server ann (some supplied) ≡ ok ticket
unfolding prepare_ticket authenticated_npln_uid bearer_token strip_prefix_fold trim_space
    signed_claims split valid_claims uid_from_ctx validate_caller_definitions last_resource_segment
    after_last_slash authorize_friend_pool strip_prefix concrete_resource ticket_friend_room
    matchmaking_string_attribute clone_user_definition_for_caller get_field user_id_from_path
    put_field
prepared = refl

pub placed-Reach : Reach env new_server placed
unfolding uid_from_ctx searching store_ticket complete_matchmaking_ticket placed
placed-Reach =
    next (next here (store_match clock new_server ann (some supplied) ticket new_server prepared))
      (complete_match clock searching ann ticket_name [] ann-IsSegment)

pub placed-IsServer : IsServer placed
placed-IsServer = Reach-IsServer bound placed-Reach

Reach-IsServer_example : IsServer placed
Reach-IsServer_example = Reach-IsServer bound placed-Reach

searching-IsServer : IsServer searching
unfolding searching store_ticket
searching-IsServer =
    Reach-IsServer bound
      (next here (store_match clock new_server ann (some supplied) ticket new_server prepared))

searching-ticket : get searching.tickets (last_resource_segment ticket_name) ≡ some named_ticket
unfolding get searching put new_server last_resource_segment after_last_slash decimal
searching-ticket = refl

searching-unplaced : get searching.ticket_sessions (last_resource_segment ticket_name) ≡ none
unfolding get searching store_ticket new_server
searching-unplaced = refl

pub matched-user :
    user_id_from_path matched_definition.user ≡ ticket_uid ann named_ticket.user_definitions
unfolding ticket_uid uid_from_ctx user_id_from_path after_last_slash
matched-user = refl

ann-named : ticket_uid ann named_ticket.user_definitions ≢ ""
unfolding ticket_uid uid_from_ctx
ann-named e = cc ((eq_iff "ann" "").1 e)

caller-IsSegment : IsSegment (ticket_uid ann named_ticket.user_definitions)
unfolding ticket_uid uid_from_ctx after_last_slash
caller-IsSegment = refl

complete_matchmaking_ticket-IsMatched_example :
    IsMatched
      (ticket_uid ann named_ticket.user_definitions)
      (complete_matchmaking_ticket env clock searching ann ticket_name []).1
complete_matchmaking_ticket-IsMatched_example =
    complete_matchmaking_ticket-IsMatched env clock searching ann ticket_name [] named_ticket
      matched_definition bound searching-IsServer searching-ticket searching-unplaced refl
      matched-user caller-IsSegment ann-named

store_ticket-check_owner_example :
    let (s', named) = store_ticket clock new_server ticket in
    (get s'.tickets (last_resource_segment named.name) ≡ some named)
    × (check_owner env clock s' ann named.name ≡ ok "ann")
store_ticket-check_owner_example =
    store_ticket-check_owner env clock clock new_server new_server ann (some supplied) ticket "ann"
      prepared authenticated authenticated ann-IsSegment
