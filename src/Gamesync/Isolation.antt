-- ===== src/Gamesync/Isolation.antt =====
-- gamesync_store.go: WriteDocuments and the other game sessions.
use super_mario_bros_wonder.Base.{
  String, ◌≡◌, refl, ◌≢◌, inl, inr, List, get, get-put_ne, Result-cases,
}
use super_mario_bros_wonder.Proto.{Timestamp}
use super_mario_bros_wonder.Gamesync.{GamesyncSession}
use super_mario_bros_wonder.Gamesync.State.{Gamesync, WriteOperation, DefermentOperation}
use super_mario_bros_wonder.Gamesync.Writes.{transact, commit, write_documents}

-- A write, whether it succeeds or fails, changes no document, no global value and no owner of another
-- game session.
pub write_documents-other_game :
    (now : Timestamp) (s : Gamesync) (session : GamesyncSession) (writes : List WriteOperation)
    (deferred : List DefermentOperation) (other : String)
    → session.game_session ≢ other
    → let s' = (write_documents now s session writes deferred).0 in
      (get s'.documents other ≡ get s.documents other)
      × (get s'.global_values other ≡ get s.global_values other)
      × (get s'.owners other ≡ get s.owners other)
unfolding write_documents commit
write_documents-other_game now s session writes deferred other ne =
    elim (Result-cases (transact now s session writes deferred)) [
      | inr (c, e) ↦ rw (e, write_documents) (refl, refl, refl)
      | inl (done, e) ↦
          rw (e, write_documents)
            (
              get-put_ne s.documents session.game_session other done.0.docs ne,
              get-put_ne s.global_values session.game_session other done.0.globals ne,
              get-put_ne s.owners session.game_session other done.0.owners ne,
            )
    ]
