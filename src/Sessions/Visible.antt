-- ===== src/Sessions/Visible.antt =====
-- Who sees a session, and what of it.
use super_mario_bros_wonder.Base.{
  String, true, some, List, [], ◌∷◌, ◌==◌, ◌≡◌, refl, ◌≢◌, ◌⊎◌, ◌↔◌, inl, inr, any, arith, eq_iff,
  Bool-cases, ok, All,
}
use super_mario_bros_wonder.Proto.{GameSession, GameSessionState}
use super_mario_bros_wonder.Attributes.{lookup_field, string_value}
use super_mario_bros_wonder.Names.{last_resource_segment, user_id_from_path}
use super_mario_bros_wonder.Registry.{session_has_uid}
use super_mario_bros_wonder.Sessions.{
  Friends, is_friend, room_visible, check_targets, validate_search_config, search_target,
}

abbrev pub friend_room_of : GameSession → String
friend_room_of gs = string_value (lookup_field gs.properties "FriendGameSessionId")

-- One of the users of a session is a friend.
abbrev pub HasFriend : GameSession → Friends → Type 0
HasFriend gs friends =
    any (λ u. is_friend friends (user_id_from_path u.user)) gs.user_sessions ≡ true

-- Who may see a session, without the order of the code's tests.
pub record IsVisible (gs : GameSession) (uid : String) (friends : Friends) : Type 0 where
  pub active : gs.state ≡ GameSessionState.active
  pub allowed :
      (session_has_uid (some gs) uid ≡ true)
      ⊎ ((friend_room_of gs ≡ "") × ((gs.is_public ≡ true) ⊎ HasFriend gs friends))

pub IsVisible-sound :
    (gs : GameSession) (uid : String) (friends : Friends)
    → room_visible (some gs) uid friends ≡ true
    → IsVisible gs uid friends
unfolding room_visible
IsVisible-sound gs uid friends h = record {
  active = ground (arith, h);
  allowed = ground (arith, h, eq_iff (friend_room_of gs) "");
}

pub IsVisible-complete :
    (gs : GameSession) (uid : String) (friends : Friends)
    → IsVisible gs uid friends
    → room_visible (some gs) uid friends ≡ true
unfolding room_visible
IsVisible-complete gs uid friends v =
    ground (arith, v.active, v.allowed, eq_iff (friend_room_of gs) "")

-- A session is visible exactly if it is active and either the caller is an active user of it, or
-- it is no friend pool and is public or holds a friend of the caller.
pub room_visible_iff :
    (gs : GameSession) (uid : String) (friends : Friends)
    → (room_visible (some gs) uid friends ≡ true) ↔ IsVisible gs uid friends
room_visible_iff gs uid friends =
    (IsVisible-sound gs uid friends, IsVisible-complete gs uid friends)

-- A friend search: every target is the caller's friend.
abbrev pub AreFriends : String → Friends → List String → Type 0
AreFriends uid friends users =
    All (λ u. (search_target uid u ≢ "") × (is_friend friends (search_target uid u) ≡ true)) users

check_targets_sound :
    (users : List String) (uid : String) (friends : Friends)
    → check_targets users uid friends ≡ ok tt
    → AreFriends uid friends users
unfolding check_targets
check_targets_sound [] uid friends h = tt
check_targets_sound (u ∷ us) uid friends h = (
  (ground (arith, h, eq_iff (search_target uid u) ""), ground (arith, h)),
  check_targets_sound us uid friends (ground (arith, h)),
)

check_targets_complete :
    (users : List String) (uid : String) (friends : Friends)
    → AreFriends uid friends users
    → check_targets users uid friends ≡ ok tt
unfolding check_targets
check_targets_complete [] uid friends h = refl
check_targets_complete (u ∷ us) uid friends ((n, f), h) =
    ground (arith, n, f, eq_iff (search_target uid u) "", check_targets_complete us uid friends h)

abbrev pub IsSearch : String → List String → String → Friends → Type 0
IsSearch config users uid friends =
    (last_resource_segment config ≡ "")
    ⊎ ((last_resource_segment config ≡ "FriendSearch")
        × (users ≢ [])
        × AreFriends uid friends users)

IsSearch-sound :
    (config : String) (users : List String) (uid : String) (friends : Friends)
    → validate_search_config config users uid friends ≡ ok tt
    → IsSearch config users uid friends
unfolding validate_search_config
IsSearch-sound config users uid friends h =
    let seg = last_resource_segment config in
    elim (Bool-cases (seg == "")) [
      | inl e ↦ inl ((eq_iff seg "").0 e)
      | inr e ↦ inr (
        ground (arith, h, e, eq_iff seg "FriendSearch"),
        (λ z. ground (arith, h, e, z)),
        check_targets_sound users uid friends (ground (arith, h, e)),
      )
    ]

IsSearch-complete :
    (config : String) (users : List String) (uid : String) (friends : Friends)
    → IsSearch config users uid friends
    → validate_search_config config users uid friends ≡ ok tt
unfolding validate_search_config
IsSearch-complete config users uid friends (inl e) =
    rw ((eq_iff (last_resource_segment config) "").1 e)
IsSearch-complete config [] uid friends (inr (e, n, a)) = absurd (n refl)
IsSearch-complete config (u ∷ us) uid friends (inr (e, n, a)) =
    rw e (ground (arith, check_targets_complete (u ∷ us) uid friends a))

-- A query passes the check of its search configuration exactly if it names none, or it names
-- FriendSearch with at least one user, each of them a friend of the caller.
pub validate_search_config_iff :
    (config : String) (users : List String) (uid : String) (friends : Friends)
    → (validate_search_config config users uid friends ≡ ok tt) ↔ IsSearch config users uid friends
validate_search_config_iff config users uid friends =
    (IsSearch-sound config users uid friends, IsSearch-complete config users uid friends)
