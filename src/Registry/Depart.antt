-- ===== src/Registry/Depart.antt =====
-- Who is found in the registry after a departure.
use super_mario_bros_wonder.Base.{
  String, Bool, not, Option, none, some, List, [], ◌∷◌, ◌==◌, ◌≡◌, refl, ◌≢◌, inl, inr, get,
  get-put, get-put_self, keep, arith, eq_iff, Bool-cases, Option-cases,
}
use super_mario_bros_wonder.Proto.{UserSession, GameSession}
use super_mario_bros_wonder.Names.{last_resource_segment}
use super_mario_bros_wonder.Registry.{
  SessionRegistry, has_segment, find_member, member, depart_session, depart,
}

abbrev stays : String → UserSession → Bool
stays user_session u = not (has_segment u.name user_session)

find_member-keep :
    (us : List UserSession) (n uid : String) → find_member (keep (stays n) us) n uid ≡ none
unfolding find_member
find_member-keep [] n uid = refl
find_member-keep (u ∷ us) n uid = ground (arith, find_member-keep us n uid)

find_member-keep_ne :
    (us : List UserSession) (n m uid : String)
    → last_resource_segment n ≢ last_resource_segment m
    → find_member (keep (stays n) us) m uid ≡ find_member us m uid
unfolding find_member
find_member-keep_ne [] n m uid h = refl
find_member-keep_ne (u ∷ us) n m uid h = ground (
  arith,
  find_member-keep_ne us n m uid h,
  eq_iff (last_resource_segment u.name) (last_resource_segment n),
  eq_iff (last_resource_segment u.name) (last_resource_segment m),
)

-- No user is a member of a session under a user session that has departed from it.
pub member-depart :
    (r : SessionRegistry) (game_session user_session uid : String)
    → member (depart r game_session user_session) game_session user_session uid ≡ none
unfolding member depart depart_session
member-depart r game_session user_session uid =
    let id = last_resource_segment game_session in
    elim (Option-cases (get r.sessions id)) [
      | inl e ↦ rw (e, depart, member, e, member)
      | inr (gs, e) ↦ rw (
        e,
        depart,
        member,
        get-put_self r.sessions id,
        member,
        find_member-keep gs.user_sessions user_session uid,
      )
    ]

-- The user session of a membership that is found.
abbrev pub member_found : Option (GameSession × UserSession) → Option UserSession
member_found none = none
member_found (some (gs, u)) = some u

-- A departure leaves every membership under a user session of another last segment, in this session
-- or in another, as it was.
pub member-depart_ne :
    (r : SessionRegistry) (game_session user_session other_session other_user uid : String)
    → last_resource_segment user_session ≢ last_resource_segment other_user
    → member_found (member (depart r game_session user_session) other_session other_user uid)
      ≡ member_found (member r other_session other_user uid)
unfolding member depart depart_session
member-depart_ne r game_session user_session other_session other_user uid h =
    let id = last_resource_segment game_session in
    let other = last_resource_segment other_session in
    elim (Option-cases (get r.sessions id)) [
      | inl e ↦ rw (e, depart)
      | inr (gs, e) ↦ elim (Bool-cases (id == other)) [
        | inr f ↦ rw (e, depart, member, get-put r.sessions id other, f)
        | inl f ↦
            rw
              (
                e,
                depart,
                member,
                get-put r.sessions id other,
                f,
                member,
                ← (eq_iff id other).0 f,
                e,
                member,
              )
              (ground (arith, find_member-keep_ne gs.user_sessions user_session other_user uid h))
      ]
    ]
