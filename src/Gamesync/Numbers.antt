-- ===== src/Gamesync/Numbers.antt =====
-- gamesync.go, gamesync_store.go: the numbers of the users of a game session, over the calls.
use super_mario_bros_wonder.Base.{
  String, ℕ, ℤ, pos, Option, none, some, ◌+◌, ◌<◌, ◌≤◌, ◌≡◌, ◌≢◌, ◌⊎◌, refl, sym, ap, ◌∙◌, arith,
  inl, inr, subst, Bool-cases, Option-cases, Dict, get, put, get-put_self, get-put_ne,
  get-put-eq-some, ◌+ℤ◌, wrap64, to_int64, eq_iff, ◌==◌,
}
use super_mario_bros_wonder.Names.{last_resource_segment}
use super_mario_bros_wonder.Proto.{Timestamp}
use super_mario_bros_wonder.Gamesync.{GamesyncSession}
use super_mario_bros_wonder.Gamesync.State.{Gamesync}
use super_mario_bros_wonder.Gamesync.Sessions.{
  number_of, number_session, filled, store_session, remember_session,
}

abbrev pub counter : Gamesync → String → ℤ
counter g game = number_of (get g.next_sequence game)

-- A number from 1 up to the counter of a game session.
pub record Within (n : ℤ) (limit : ℤ) : Type 0 where
  number : ℕ
  last : ℕ
  is_number : n ≡ pos number
  is_last : limit ≡ pos last
  in_range : number ≤ last

-- Every session stands under the last segment of its name, with a number that its game session has
-- given, and no two sessions of one game session have one number.
pub record IsNumbered (g : Gamesync) : Type 0 where
  pub under_segment :
      (k : String) (s : GamesyncSession)
      → get g.sessions k ≡ some s
      → last_resource_segment s.user_session ≡ k
  pub within :
      (k : String) (s : GamesyncSession)
      → get g.sessions k ≡ some s
      → Within s.sequence (counter g s.game_session)
  pub distinct :
      (k j : String) (s t : GamesyncSession)
      → get g.sessions k ≡ some s
      → get g.sessions j ≡ some t
      → s.game_session ≡ t.game_session
      → s.sequence ≡ t.sequence
      → k ≡ j
  pub counted : (game : String) → (c : ℕ) × (counter g game ≡ pos c)

-- A change that adds no session and keeps the counters.
pub fewer_sessions :
    (g g' : Gamesync)
    → ((k : String) (s : GamesyncSession) → get g'.sessions k ≡ some s → get g.sessions k ≡ some s)
    → g'.next_sequence ≡ g.next_sequence
    → IsNumbered g
    → IsNumbered g'
fewer_sessions g g' h e i = record {
  under_segment = λ k s f. i.under_segment k s (h k s f);
  within = λ k s f.
      subst (λ d. Within s.sequence (number_of (get d s.game_session))) (sym e)
        (i.within k s (h k s f));
  distinct = λ k j s t f f'. i.distinct k j s t (h k s f) (h j t f');
  counted =
      λ game. subst (λ d. (c : ℕ) × (number_of (get d game) ≡ pos c)) (sym e) (i.counted game);
}

-- What is found after a session is stored.
abbrev Stored : Gamesync → String → GamesyncSession → String → GamesyncSession → Type 0
Stored g id session k s = ((id ≡ k) × (session ≡ s)) ⊎ ((id ≢ k) × (get g.sessions k ≡ some s))

Stored-cases :
    (g g' : Gamesync) (id : String) (session : GamesyncSession)
    → g'.sessions ≡ put g.sessions id session
    → (k : String) (s : GamesyncSession) → get g'.sessions k ≡ some s
    → Stored g id session k s
Stored-cases g g' id session e k s h =
    get-put-eq-some g.sessions id k (ap (λ m. get m k) (sym e) ∙ h)

abbrev game_of : GamesyncSession → String
game_of s = s.game_session

abbrev sequence_of : GamesyncSession → ℤ
sequence_of s = s.sequence

one_number :
    (g : Gamesync) (id : String) (session : GamesyncSession)
    → ((j : String) (t : GamesyncSession)
        → get g.sessions j ≡ some t
        → session.game_session ≡ t.game_session
        → session.sequence ≡ t.sequence
        → id ≡ j)
    → IsNumbered g
    → (k j : String) (s t : GamesyncSession) → Stored g id session k s
    → Stored g id session j t
    → s.game_session ≡ t.game_session
    → s.sequence ≡ t.sequence
    → k ≡ j
one_number g id session d i k j s t (inl (p, q)) (inl (p', q')) same number = sym p ∙ p'
one_number g id session d i k j s t (inl (p, q)) (inr (p', q')) same number =
    sym p ∙ d j t q' (ap game_of q ∙ same) (ap sequence_of q ∙ number)
one_number g id session d i k j s t (inr (p, q)) (inl (p', q')) same number =
    sym (sym p' ∙ d k s q (ap game_of q' ∙ sym same) (ap sequence_of q' ∙ sym number))
one_number g id session d i k j s t (inr (p, q)) (inr (p', q')) same number =
    i.distinct k j s t q q' same number

-- A session that is stored under its segment: it is new with the next number, or has kept its own.
store-IsNumbered :
    (g g' : Gamesync) (id : String) (session : GamesyncSession)
    → g'.sessions ≡ put g.sessions id session
    → last_resource_segment session.user_session ≡ id
    → ((game : String) (n : ℤ) → Within n (counter g game) → Within n (counter g' game))
    → Within session.sequence (counter g' session.game_session)
    → ((j : String) (t : GamesyncSession)
        → get g.sessions j ≡ some t
        → session.game_session ≡ t.game_session
        → session.sequence ≡ t.sequence
        → id ≡ j)
    → ((game : String) → (c : ℕ) × (counter g' game ≡ pos c))
    → IsNumbered g
    → IsNumbered g'
store-IsNumbered g g' id session e f up w d c i = record {
  under_segment = λ k s h. elim (get-put-eq-some g.sessions id k (ap (λ m. get m k) (sym e) ∙ h)) [
    | inl (p, q) ↦ subst (λ x. last_resource_segment x.user_session ≡ k) q (f ∙ p)
    | inr (p, q) ↦ i.under_segment k s q
  ];
  within = λ k s h. elim (get-put-eq-some g.sessions id k (ap (λ m. get m k) (sym e) ∙ h)) [
    | inl (p, q) ↦
        subst (λ (x : GamesyncSession). Within x.sequence (counter g' x.game_session)) q w
    | inr (p, q) ↦ up s.game_session s.sequence (i.within k s q)
  ];
  distinct = λ k j s t h h' same number.
      one_number g id session d i k j s t (Stored-cases g g' id session e k s h)
        (Stored-cases g g' id session e j t h') same number;
  counted = c;
}

numbered_state : Timestamp → Gamesync → GamesyncSession → Option GamesyncSession → Gamesync
numbered_state now g session previous =
    store_session now
      ((number_session now g session previous).0, filled (number_session now g session previous).1)

known-IsNumbered :
    (now : Timestamp) (g : Gamesync) (session previous : GamesyncSession)
    → get g.sessions (last_resource_segment session.user_session) ≡ some previous
    → previous.game_session ≡ session.game_session
    → IsNumbered g
    → IsNumbered (numbered_state now g session (some previous))
unfolding numbered_state number_session store_session
known-IsNumbered now g session previous h same i =
    store-IsNumbered g _ (last_resource_segment session.user_session)
      (filled (number_session now g session (some previous)).1) refl refl (λ game n w. w)
      (subst (λ game. Within previous.sequence (counter g game)) same (i.within _ previous h))
      (λ j t k e f. i.distinct _ j previous t h k (same ∙ e) f) i.counted i

pos_same : (a b : ℕ) → pos a ≡ pos b → a ≡ b
pos_same a b e = ground arith

next_number :
    (c : ℕ) (n : ℤ) → n ≡ pos c → c < 9223372036854775807 → wrap64 (n +ℤ pos 1) ≡ pos (c + 1)
unfolding wrap64 to_int64
next_number c n e h = rw e (ground arith)

-- The counter of the game session is raised, the others stay.
raised :
    (counters : Dict ℤ) (game other : String) (n : ℤ)
    → ((game ≡ other) × (number_of (get (put counters game n) other) ≡ n))
      ⊎ ((game ≢ other)
          × (number_of (get (put counters game n) other) ≡ number_of (get counters other)))
raised counters game other n = elim (Bool-cases (game == other)) [
  | inl e ↦
      let p = (eq_iff game other).0 e in
      inl (
        p,
        ap (λ k. number_of (get (put counters game n) k)) (sym p)
            ∙ ap number_of (get-put_self counters game n),
      )
  | inr e ↦
      let p : game ≢ other = λ q. ground (arith, eq_iff game other) in
      inr (p, ap number_of (get-put_ne counters game other n p))
]

Within-raised :
    (g : Gamesync) (game other : String) (c : ℕ) (n m : ℤ)
    → counter g game ≡ pos c
    → n ≡ pos (c + 1)
    → Within m (counter g other)
    → Within m (number_of (get (put g.next_sequence game n) other))
Within-raised g game other c n m e f w = elim (raised g.next_sequence game other n) [
  | inr (p, q) ↦ subst (Within m) (sym q) w
  | inl (p, q) ↦ record {
    number = w.number;
    last = c + 1;
    is_number = w.is_number;
    is_last = q ∙ f;
    in_range =
        let g : pos w.last ≡ pos c = sym w.is_last ∙ ap (counter g) (sym p) ∙ e in
        let k = pos_same w.last c g in let l = w.in_range in omega arith;
  }
]

counted_raised :
    (g : Gamesync) (game other : String) (c : ℕ) (n : ℤ)
    → n ≡ pos (c + 1)
    → ((other : String) → (d : ℕ) × (counter g other ≡ pos d))
    → (d : ℕ) × (number_of (get (put g.next_sequence game n) other) ≡ pos d)
counted_raised g game other c n f i = elim (raised g.next_sequence game other n) [
  | inr (p, q) ↦ ((i other).0, q ∙ (i other).1)
  | inl (p, q) ↦ (c + 1, q ∙ f)
]

-- The next number is none that a session of the game session has.
fresh_number :
    (g : Gamesync) (game : String) (c : ℕ) (t : GamesyncSession)
    → counter g game ≡ pos c
    → game ≡ t.game_session
    → Within t.sequence (counter g t.game_session)
    → pos (c + 1) ≢ t.sequence
fresh_number g game c t e same w eq =
    let last = pos_same w.last c (sym w.is_last ∙ ap (counter g) (sym same) ∙ e) in
    let number = pos_same (c + 1) w.number (eq ∙ w.is_number) in let l = w.in_range in omega arith

new-IsNumbered :
    (now : Timestamp) (g : Gamesync) (session : GamesyncSession) (c : ℕ)
    → counter g session.game_session ≡ pos c
    → c < 9223372036854775807
    → IsNumbered g
    → IsNumbered (numbered_state now g session none)
unfolding numbered_state number_session store_session
new-IsNumbered now g session c e h i =
    let game = session.game_session in
    let n = wrap64 (counter g game +ℤ pos 1) in
    let n_lem = next_number c (counter g game) e h in
    let own : number_of (get (put g.next_sequence game n) game) ≡ n =
      ap number_of (get-put_self g.next_sequence game n) in
    store-IsNumbered g _ (last_resource_segment session.user_session)
      (filled (number_session now g session none).1) refl refl
      (λ other m w. Within-raised g game other c n m e n_lem w)
      (record {
        number = c + 1;
        last = c + 1;
        is_number = n_lem;
        is_last = own ∙ n_lem;
        in_range = omega arith;
      })
      (λ j t k same eq. absurd (fresh_number g game c t e same (i.within j t k) (sym n_lem ∙ eq)))
      (λ other. counted_raised g game other c n n_lem i.counted) i

pub remember-IsNumbered :
    (now : Timestamp) (g : Gamesync) (session : GamesyncSession)
    → ((previous : GamesyncSession)
        → get g.sessions (last_resource_segment session.user_session) ≡ some previous
        → previous.game_session ≡ session.game_session)
    → ((c : ℕ) → counter g session.game_session ≡ pos c → c < 9223372036854775807)
    → IsNumbered g
    → IsNumbered (remember_session now g session).0
unfolding remember_session numbered_state
remember-IsNumbered now g session h k i =
    elim (Option-cases (get g.sessions (last_resource_segment session.user_session))) [
      | inl e ↦
          let (c, f) = i.counted session.game_session in
          subst (λ o. IsNumbered (numbered_state now g session o)) (sym e)
            (new-IsNumbered now g session c f (k c f) i)
      | inr (previous, e) ↦
          subst (λ o. IsNumbered (numbered_state now g session o)) (sym e)
            (known-IsNumbered now g session previous e (h previous e) i)
    ]

-- The counters after a session is remembered: none is above the last of them before, and 1.
pub remember-counter :
    (now : Timestamp) (g : Gamesync) (session : GamesyncSession) (n : ℕ)
    → n < 9223372036854775807
    → ((game : String) → (c : ℕ) × (counter g game ≡ pos c) × (c ≤ n))
    → (game : String)
    → (c : ℕ) × (counter (remember_session now g session).0 game ≡ pos c) × (c ≤ n + 1)
unfolding remember_session store_session number_session
remember-counter now g session n h i game =
    elim (Option-cases (get g.sessions (last_resource_segment session.user_session))) [
      | inr (previous, e) ↦ let (c, f, l) = i game in rw (e, remember_session) (c, f, omega arith)
      | inl e ↦
          let (c, f, l) = i session.game_session in
          rw (e, remember_session)
            (elim (raised g.next_sequence session.game_session game
              (wrap64 (counter g session.game_session +ℤ pos 1))) [
                | inl (p, q) ↦ (
                  c + 1,
                  q ∙ next_number c (counter g session.game_session) f (omega arith),
                  omega arith,
                )
                | inr (p, q) ↦ let (d, k, m) = i game in (d, q ∙ k, omega arith)
              ])
    ]
