-- ===== src/Invariant/Opened.antt =====
-- matchmaking.go: the completion of creation tickets and the invariant.
use super_mario_bros_wonder.Base.{
  String, ℕ, ℤ, pos, false, ◌||◌, none, List, [], ◌∷◌, ◌+◌, ◌%◌, ◌≡◌, refl, sym, ap, inl, inr, get,
  get-put-eq-some, arith, Bool-cases, length, to_int32, ltb_ℤ,
}
use super_mario_bros_wonder.Proto.{UserSession, GameSession, CreationTicket}
use super_mario_bros_wonder.Names.{last_resource_segment}
use super_mario_bros_wonder.Auth.{Context}
use super_mario_bros_wonder.Server.{Server, Env, Clock}
use super_mario_bros_wonder.Matchmaking.{clone_user_definition_for_caller}
use super_mario_bros_wonder.Pools.{session_id, session_path}
use super_mario_bros_wonder.Rooms.{
  open_ticket, open_room, seats, participant_count, room_capacity, or_empty_session,
}
use super_mario_bros_wonder.Invariant.{IsSession, IsServer}
use super_mario_bros_wonder.Invariant.Writes.{set_session-IsRegistry}
use super_mario_bros_wonder.Invariant.Placed.{solo-cons}

-- The key that the next room opened at a time is given.
abbrev pub room_key : Clock → Server → String
room_key clock s =
    last_resource_segment
      (session_path (session_id clock.now ((s.next_game_id + 1) % 18446744073709551616)))

open_room-IsSession :
    (env : Env) (now : ℕ) (gs_name config : String) (requested : GameSession) (capacity : ℤ)
    (u : UserSession)
    → ltb_ℤ capacity (pos 1) ≡ false
    → ltb_ℤ (pos 64) capacity ≡ false
    → IsSession
        (last_resource_segment gs_name)
        (open_room env now gs_name config requested capacity (pos 1) (u ∷ []))
unfolding open_room
open_room-IsSession env now gs_name config requested capacity u low high = record {
  named = refl;
  sized = record { counted = refl; fits = ground (arith, low); range = ground (arith, high) };
  live = inl refl;
}

-- Opening a room, or refusing to, keeps the invariant of the whole state, if the room's key is not
-- that of a pooled session.
pub open_ticket-IsServer :
    (env : Env) (clock : Clock) (s : Server) (ctx : Context) (ticket_id : String)
    (stored : CreationTicket) (include : List String) (uid : String)
    → length stored.user_definitions ≡ 1
    → get s.registry.pooled (room_key clock s) ≡ none
    → IsServer s
    → IsServer (open_ticket env clock s ctx ticket_id stored include uid).0
unfolding open_ticket seats participant_count to_int32
open_ticket-IsServer env clock s ctx ticket_id stored include uid one fresh inv =
    let (d, same) = solo-cons one in
    let d' = clone_user_definition_for_caller ctx d in
    let requested = or_empty_session stored.game_session in
    let capacity =
      room_capacity env.settings stored.matchmaking_config requested.max_participant_count
        (pos 1) in
    let kept : IsServer (record s { next_game_id = (s.next_game_id + 1) % 18446744073709551616 }) =
      record {
        registry = inv.registry;
        listed = inv.listed;
        placed = inv.placed;
        solo = inv.solo;
        solo_creation = inv.solo_creation;
      } in
    rw same (elim (Bool-cases (ltb_ℤ capacity (pos 1) || ltb_ℤ (pos 64) capacity)) [
      | inl e ↦ rw e kept
      | inr e ↦ rw e (record {
        registry =
            set_session-IsRegistry s.registry (room_key clock s) _ inv.registry
              (open_room-IsSession env clock.now _ stored.matchmaking_config requested capacity _
                (ground (arith, e)) (ground (arith, e)))
              fresh;
        listed = inv.listed;
        placed = inv.placed;
        solo = inv.solo;
        solo_creation = λ t c h. elim (get-put-eq-some s.creation_tickets ticket_id t h) [
          | inl (_, f) ↦ ap (λ (x : CreationTicket). length x.user_definitions) (sym f)
          | inr (_, old) ↦ inv.solo_creation t c old
        ];
      })
    ])
