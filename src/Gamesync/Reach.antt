-- ===== src/Gamesync/Reach.antt =====
-- gamesync.go, gamesync_store.go: the numbers of the users of a game session, in the states that the
-- calls and the timers reach.
use super_mario_bros_wonder.Base.{
  String, ℕ, pos, some, List, [], ◌∷◌, ◌+◌, ◌≤◌, ◌<◌, ◌≡◌, refl, sym, ap, ◌∙◌, arith, inl, inr,
  length, All, get, subst,
}
use super_mario_bros_wonder.Proto.{Timestamp}
use super_mario_bros_wonder.Gamesync.{GamesyncSession}
use super_mario_bros_wonder.Gamesync.State.{Gamesync, new_gamesync}
use super_mario_bros_wonder.Gamesync.Sessions.{number_of, remember_session}
use super_mario_bros_wonder.Gamesync.Numbers.{
  IsNumbered, fewer_sessions, counter, remember-IsNumbered, remember-counter,
}
use super_mario_bros_wonder.Gamesync.Calls.{
  Call, perform, run, Remembers, segment_of, Quiet, perform-cases, remember_session-found,
}

-- A session of the game session to which its user session belongs.
abbrev pub IsHome : (String → String) → GamesyncSession → Type 0
IsHome home session = session.game_session ≡ home (segment_of session)

-- The invariant after at most `n` sessions were remembered.
record IsOrdered (home : String → String) (n : ℕ) (g : Gamesync) : Type 0 where
  numbered : IsNumbered g
  at_home : (k : String) (s : GamesyncSession) → get g.sessions k ≡ some s → s.game_session ≡ home k
  bounded : (game : String) → (c : ℕ) × (counter g game ≡ pos c) × (c ≤ n)

Quiet-IsOrdered :
    (home : String → String) (n : ℕ) (g g' : Gamesync)
    → Quiet g g'
    → IsOrdered home n g
    → IsOrdered home (n + 1) g'
Quiet-IsOrdered home n g g' (fewer, same) i = record {
  numbered = fewer_sessions g g' fewer same i.numbered;
  at_home = λ k s h. i.at_home k s (fewer k s h);
  bounded = λ game.
      let (c, e, l) = i.bounded game in (c, ap (λ d. number_of (get d game)) same ∙ e, omega arith);
}

remember-IsOrdered :
    (home : String → String) (n : ℕ) (now : Timestamp) (g : Gamesync) (session : GamesyncSession)
    → n < 9223372036854775807
    → IsHome home session
    → IsOrdered home n g
    → IsOrdered home (n + 1) (remember_session now g session).0
remember-IsOrdered home n now g session l h i = record {
  numbered =
      remember-IsNumbered now g session (λ previous e. i.at_home _ previous e ∙ sym h)
        (λ c e. below c e (i.bounded session.game_session)) i.numbered;
  at_home = λ k s e. elim (remember_session-found now g session k s e) [
    | inl (p, q) ↦ q ∙ h ∙ ap home p
    | inr (p, q) ↦ i.at_home k s q
  ];
  bounded = remember-counter now g session n l i.bounded;
}
  where
    below :
        (c : ℕ)
        → counter g session.game_session ≡ pos c
        → (d : ℕ) × (counter g session.game_session ≡ pos d) × (d ≤ n)
        → c < 9223372036854775807
    below c e (d, f, m) = let k : pos c ≡ pos d = sym e ∙ f in ground arith

perform-IsOrdered :
    (home : String → String) (n : ℕ) (c : Call) (g : Gamesync)
    → n < 9223372036854775807
    → Remembers (IsHome home) c
    → IsOrdered home n g
    → IsOrdered home (n + 1) (perform c g)
unfolding perform
perform-IsOrdered home n c g l h i = elim (perform-cases c g) [
  | inr quiet ↦ Quiet-IsOrdered home n g (perform c g) quiet i
  | inl (now, session, e) ↦
      subst (λ k. IsOrdered home (n + 1) (perform k g)) (sym e)
        (remember-IsOrdered home n now g session l (subst (Remembers (IsHome home)) e h) i)
]

run-IsOrdered :
    (home : String → String) (calls : List Call) (n : ℕ) (g : Gamesync)
    → n + length calls ≤ 9223372036854775807
    → All (Remembers (IsHome home)) calls
    → IsOrdered home n g
    → IsNumbered (run calls g)
unfolding run
run-IsOrdered home [] n g l h i = i.numbered
run-IsOrdered home (c ∷ calls) n g l (p, h) i =
    run-IsOrdered home calls (n + 1) (perform c g) (omega arith) h
      (perform-IsOrdered home n c g (omega arith) p i)

new-IsOrdered : (home : String → String) → IsOrdered home 0 new_gamesync
unfolding new_gamesync get
new-IsOrdered home = record {
  numbered = record {
    under_segment = λ k s h. absurd (ground arith);
    within = λ k s h. absurd (ground arith);
    distinct = λ k j s t h h' e f. absurd (ground arith);
    counted = λ game. (0, refl);
  };
  at_home = λ k s h. absurd (ground arith);
  bounded = λ game. (0, refl, omega arith);
}

-- After any steps on a new server, in any order, each session stands under the last segment of its
-- name with a number that its game session has given, and no two sessions of one game session have
-- the same number. The steps are the calls that change a table, cut where they release the lock, and
-- the timers. It is assumed that a user session is remembered for one game session only, which the code
-- does not check, and that there are fewer than 2 ^ 63 steps.
pub run-IsNumbered :
    (home : String → String) (calls : List Call)
    → length calls < 9223372036854775808
    → All (Remembers (IsHome home)) calls
    → IsNumbered (run calls new_gamesync)
run-IsNumbered home calls l h =
    run-IsOrdered home calls 0 new_gamesync (omega arith) h (new-IsOrdered home)
