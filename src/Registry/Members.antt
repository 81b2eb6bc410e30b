-- ===== src/Registry/Members.antt =====
-- session_registry.go: the registry as a relation of sessions, user sessions and users.
use super_mario_bros_wonder.Base.{
  String, Bool, false, ◌&&◌, Option, none, some, List, [], ◌∷◌, ◌==◌, ◌≡◌, ◌≢◌, refl, sym, ap, ◌∙◌,
  inl, inr, arith, if◌then◌else◌, is_some, get, get-put_ne, eq_iff, Bool-cases, Option-cases,
}
use super_mario_bros_wonder.Proto.{UserSession, GameSession}
use super_mario_bros_wonder.Names.{last_resource_segment}
use super_mario_bros_wonder.Registry.{SessionRegistry, find_member, with_session, member, depart}
use super_mario_bros_wonder.Registry.Depart.{member-depart, member-depart_ne, member_found}

-- Who is a member, by the names of a session and a user session, and the user.
abbrev pub Members : Type 0
Members = String → String → String → Bool

unfoldable pub members : SessionRegistry → Members
members r game_session user_session uid = is_some (member r game_session user_session uid)

abbrev same_place : String × String → String → String → Bool
same_place (g, u) game_session user_session =
    (last_resource_segment g == last_resource_segment game_session)
    && (last_resource_segment u == last_resource_segment user_session)

-- A place is left by whoever was there, and nothing else changes.
unfoldable pub leave : Members → String × String → Members
leave m place game_session user_session uid =
    if same_place place game_session user_session then false else m game_session user_session uid

unfoldable pub depart_all : SessionRegistry → List (String × String) → SessionRegistry
depart_all r [] = r
depart_all r (place ∷ places) = depart_all (depart r place.0 place.1) places

unfoldable pub leave_all : Members → List (String × String) → Members
leave_all m [] = m
leave_all m (place ∷ places) = leave_all (leave m place) places

find_member_segment :
    (us : List UserSession) (n m uid : String)
    → last_resource_segment n ≡ last_resource_segment m
    → find_member us n uid ≡ find_member us m uid
unfolding find_member
find_member_segment [] n m uid e = refl
find_member_segment (u ∷ us) n m uid e = rw (e, find_member_segment us n m uid e) refl

member-none :
    (r : SessionRegistry) (g n uid : String)
    → get r.sessions (last_resource_segment g) ≡ none
    → member r g n uid ≡ none
unfolding member
member-none r g n uid k = rw (k, member) refl

member_there :
    (r : SessionRegistry) (g n uid : String) (gs : GameSession)
    → get r.sessions (last_resource_segment g) ≡ some gs
    → member r g n uid ≡ with_session gs (find_member gs.user_sessions n uid)
unfolding member
member_there r g n uid gs k = rw (k, member) refl

member_segment :
    (r : SessionRegistry) (g h n m uid : String)
    → last_resource_segment g ≡ last_resource_segment h
    → last_resource_segment n ≡ last_resource_segment m
    → member r g n uid ≡ member r h m uid
member_segment r g h n m uid e f =
    let moved = ap (get r.sessions) e in
    elim (Option-cases (get r.sessions (last_resource_segment h))) [
      | inl k ↦ member-none r g n uid (moved ∙ k) ∙ sym (member-none r h m uid k)
      | inr (gs, k) ↦
          rw
            (
              member_there r g n uid gs (moved ∙ k),
              member_there r h m uid gs k,
              find_member_segment gs.user_sessions n m uid f,
            )
            refl
    ]

is_some-found : (o : Option (GameSession × UserSession)) → is_some (member_found o) ≡ is_some o
is_some-found none = refl
is_some-found (some (gs, u)) = refl

-- A departure changes no other session.
other_session :
    (r : SessionRegistry) (g n h m uid : String)
    → last_resource_segment g ≢ last_resource_segment h
    → member (depart r g n) h m uid ≡ member r h m uid
unfolding depart member
other_session r g n h m uid e = elim (Option-cases (get r.sessions (last_resource_segment g))) [
  | inl k ↦ rw (k, depart) refl
  | inr (gs, k) ↦
      rw
        (
          k,
          depart,
          member,
          get-put_ne r.sessions (last_resource_segment g) (last_resource_segment h) _ e,
        )
        refl
]

members-depart :
    (r : SessionRegistry) (place : String × String) (h m uid : String)
    → members (depart r place.0 place.1) h m uid ≡ leave (members r) place h m uid
unfolding members leave
members-depart r (g, n) h m uid =
    elim (Bool-cases (last_resource_segment g == last_resource_segment h)) [
      | inr e ↦ rw e (
          ap is_some (
            other_session r g n h m uid
              (λ p. ground (arith, eq_iff (last_resource_segment g) (last_resource_segment h)))))
      | inl e ↦ rw e (elim (Bool-cases (last_resource_segment n == last_resource_segment m)) [
        | inl f ↦ rw f (
            ap is_some (
              member_segment (depart r g n) h g m n uid (sym ((eq_iff _ _).0 e))
                (sym ((eq_iff _ _).0 f))
              ∙ member-depart r g n uid))
        | inr f ↦ rw f (
            sym (is_some-found (member (depart r g n) h m uid))
            ∙ ap is_some (
                member-depart_ne r g n h m uid
                  (λ p. ground (arith, eq_iff (last_resource_segment n) (last_resource_segment m))))
            ∙ is_some-found (member r h m uid))
      ])
    ]

leave_all-same :
    (places : List (String × String)) (a b : Members)
    → ((g n uid : String) → a g n uid ≡ b g n uid)
    → (g n uid : String) → leave_all a places g n uid ≡ leave_all b places g n uid
unfolding leave_all leave
leave_all-same [] a b h g n uid = h g n uid
leave_all-same (p ∷ places) a b h g n uid =
    leave_all-same places (leave a p) (leave b p)
      (λ g n uid. ap (λ x. if same_place p g n then false else x) (h g n uid)) g n uid

-- Any sequence of departures does to the registry, as a relation of sessions, user sessions and users,
-- just what leaving those places does: whoever was at one of them is gone, and everyone else is
-- still there.
pub members-depart_all :
    (places : List (String × String)) (r : SessionRegistry) (game_session user_session uid : String)
    → members (depart_all r places) game_session user_session uid
      ≡ leave_all (members r) places game_session user_session uid
unfolding depart_all leave_all
members-depart_all [] r g n uid = refl
members-depart_all (p ∷ places) r g n uid =
    members-depart_all places (depart r p.0 p.1) g n uid
    ∙ leave_all-same places (members (depart r p.0 p.1)) (leave (members r) p) (members-depart r p)
        g n uid
