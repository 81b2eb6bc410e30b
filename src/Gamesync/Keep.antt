-- ===== src/Gamesync/Keep.antt =====
-- gamesync.go: KeepUserSession, as what its stream does when it opens, on each request, and when it
-- closes. Its subscriber stands with the game session under which it was opened.
use super_mario_bros_wonder.Base.{
  String, ℕ, none, some, List, [], ◌∷◌, ◌==◌, if◌then◌else◌, Result, ok, err, unauthenticated,
}
use super_mario_bros_wonder.Names.{last_resource_segment}
use super_mario_bros_wonder.Auth.{Context}
use super_mario_bros_wonder.Gamesync.{GamesyncSession}
use super_mario_bros_wonder.Gamesync.State.{
  Gamesync, RequestType, echo_request, update_target, delete_target, no_request, echo_response,
  Sent,
}
use super_mario_bros_wonder.Gamesync.Streams.{
  committed_snapshot, install_target, remove_target, add_subscriber, remove_subscriber,
  at_subscriber, send_to,
}
use super_mario_bros_wonder.Gamesync.Sessions.{TokenReader, authorized_session}
use super_mario_bros_wonder.Gamesync.Expiry.{stream_started, stream_ended}

unfoldable pub open_user_session :
    TokenReader → ℕ → Gamesync → Context → ℕ → Gamesync × Result GamesyncSession
open_user_session v unix g ctx stream = elim (authorized_session v unix g ctx "") [
  | none ↦ (g, err unauthenticated)
  | some session ↦ (
    stream_started (add_subscriber g session.game_session stream)
        (last_resource_segment session.user_session),
    ok session,
  )
]

unfoldable pub answer_request :
    Gamesync → String → ℕ → GamesyncSession → RequestType → Gamesync × List Sent
answer_request g game_session stream session (echo_request echo) =
    (g, if echo == "" then [] else send_to stream (echo_response echo ∷ []))
answer_request g game_session stream session (update_target (some target)) =
    at_subscriber g game_session stream
      (install_target target (committed_snapshot g session target))
answer_request g game_session stream session (update_target none) = (g, [])
answer_request g game_session stream session (delete_target name) =
    at_subscriber g game_session stream (remove_target name)
answer_request g game_session stream session no_request = (g, [])

-- Each request is authorized anew; one that is not ends the stream.
unfoldable pub keep_user_session :
    TokenReader
    → ℕ
    → Gamesync
    → Context
    → String
    → ℕ
    → String
    → RequestType
    → Gamesync × Result (List Sent)
keep_user_session v unix g ctx game_session stream name request =
    elim (authorized_session v unix g ctx name) [
      | none ↦ (g, err unauthenticated)
      | some session ↦
          let done = answer_request g game_session stream session request in (done.0, ok done.1)
    ]

-- What is deferred runs in reverse: the stream ends, then its subscriber goes.
unfoldable pub close_user_session :
    (Gamesync → Gamesync) → (Gamesync → Gamesync) → Gamesync → GamesyncSession → ℕ → Gamesync
close_user_session within between g opened stream =
    remove_subscriber (between (stream_ended within g (last_resource_segment opened.user_session)))
      opened.game_session stream
