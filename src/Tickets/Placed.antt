-- ===== src/Tickets/Placed.antt =====
-- Completing a matchmaking ticket for the first time.
use super_mario_bros_wonder.Base.{
  String, true, false, Option, none, some, List, [], ◌∷◌, ◌==◌, ◌≡◌, refl, ◌≢◌, ◌<◌, ap, get, arith,
  eq_iff, length,
}
use super_mario_bros_wonder.Proto.{UserDefinition, GameSession, MatchmakingTicket, TicketState}
use super_mario_bros_wonder.Names.{last_resource_segment, user_id_from_path}
use super_mario_bros_wonder.Names.Segments.{IsSegment}
use super_mario_bros_wonder.Auth.{Context}
use super_mario_bros_wonder.Registry.{session_has_uid}
use super_mario_bros_wonder.Server.{Server, Env, Clock}
use super_mario_bros_wonder.Matchmaking.{add_public_match_members}
use super_mario_bros_wonder.Pools.{select_public_match_session}
use super_mario_bros_wonder.Tickets.{
  public_match_response, ticket_uid, place_pool, place_ticket, complete_stored,
  complete_matchmaking_ticket,
}
use super_mario_bros_wonder.Service.Joining.{add-session_has_uid}
use super_mario_bros_wonder.Invariant.{IsServer, int32_max}
use super_mario_bros_wonder.Invariant.Placed.{pool_at-IsGood}
use super_mario_bros_wonder.Invariant.Tickets.{OpensAt, select-OpensAt, select-IsServer}

-- A ticket that has found its session: it has succeeded, and the user is in the session it shows.
pub record IsMatched (uid : String) (found : Option MatchmakingTicket) : Type 0 where
  pub answer : MatchmakingTicket
  pub session : GameSession
  pub answered : found ≡ some answer
  pub succeeded : answer.state ≡ TicketState.succeeded
  pub shown : answer.game_session ≡ some session
  pub seated : session_has_uid (some session) uid ≡ true

place-IsMatched :
    (env : Env) (clock : Clock) (s : Server) (ticket_id id : String) (stored : MatchmakingTicket)
    (include : List String) (uid : String) (d : UserDefinition)
    → IsServer s
    → IsSegment uid
    → stored.user_definitions ≡ d ∷ []
    → user_id_from_path d.user ≡ uid
    → OpensAt s.registry uid id
    → IsMatched uid (place_ticket clock env (s, id) ticket_id stored include uid).1
unfolding place_ticket place_pool public_match_response
place-IsMatched env clock s ticket_id id stored include uid d inv seg one owned (p, e, o) =
    let q = add_public_match_members env.codec clock p (d ∷ []) uid in
    rw (e, one, place_ticket)
      (record {
        answer = _;
        session = q.session;
        answered = refl;
        succeeded = refl;
        shown = refl;
        seated =
            add-session_has_uid env.codec clock p d uid owned seg
              (pool_at-IsGood s.registry id inv.registry e).aligned;
      })

-- Completing a stored ticket that has no session yet always succeeds, with a session that has the
-- ticket's user in it: there is always a session to join, and one is made where none has room. The
-- ticket has one definition, that of the caller, whose uid holds no slash and is not empty; the state
-- keeps the invariant, and the configured maximum is below 2^31 - 1.
pub complete_matchmaking_ticket-IsMatched :
    (env : Env) (clock : Clock) (s : Server) (ctx : Context) (name : String) (include : List String)
    (t : MatchmakingTicket) (d : UserDefinition)
    → let id = last_resource_segment name in
      let uid = ticket_uid ctx t.user_definitions in
      env.settings.match_max_participants < int32_max
      → IsServer s
      → get s.tickets id ≡ some t
      → get s.ticket_sessions id ≡ none
      → t.user_definitions ≡ d ∷ []
      → user_id_from_path d.user ≡ uid
      → IsSegment uid
      → uid ≢ ""
      → IsMatched uid (complete_matchmaking_ticket env clock s ctx name include).1
unfolding complete_matchmaking_ticket complete_stored
complete_matchmaking_ticket-IsMatched env clock s ctx name include t d bound inv e g one owned seg
      n =
    let id = last_resource_segment name in
    let uid = ticket_uid ctx t.user_definitions in
    let f : (uid == "") ≡ false = ground (arith, eq_iff uid "", n) in
    let chosen =
      select_public_match_session env.settings clock.now s t.matchmaking_config t.user_definitions
        uid in
    rw (e, f, g, complete_matchmaking_ticket, complete_stored)
      (place-IsMatched env clock chosen.0 id chosen.1 t include uid d
        (select-IsServer env.settings clock.now s t.matchmaking_config t.user_definitions uid bound
          inv)
        seg one owned
        (select-OpensAt env.settings clock.now s t.matchmaking_config t.user_definitions uid bound
          (ap length one)))
