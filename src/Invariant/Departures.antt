-- ===== src/Invariant/Departures.antt =====
-- session_registry.go: departures and the invariant.
use super_mario_bros_wonder.Base.{
  String, Bool, true, false, not, List, [], ◌∷◌, ◌<◌, ◌≡◌, refl, ap, ◌∙◌, inl, inr, get, arith,
  Bool-cases, Option-cases, keep, length, length-keep-le, to_int32_small, eqb,
}
use super_mario_bros_wonder.Proto.{UserSession, GameSession}
use super_mario_bros_wonder.Names.{last_resource_segment}
use super_mario_bros_wonder.Registry.{
  SessionRegistry, PublicMatchMember, has_segment, depart_session, depart_pool, depart_pooled,
  depart,
}
use super_mario_bros_wonder.Matchmaking.{public_match_has_uid}
use super_mario_bros_wonder.Matchmaking.Members.{Aligned, Distinct, member_uid}
use super_mario_bros_wonder.Invariant.{IsSized, IsLive, IsSession, IsRegistry, IsKnown}
use super_mario_bros_wonder.Invariant.Writes.{
  set_pool-IsRegistry, set_session-IsRegistry, set_pool-IsKnown, IsPooled-Aligned,
}

abbrev stays : String → String → Bool
stays user_session name = not (has_segment name user_session)

Aligned-keep :
    (us_name : String) (ms : List PublicMatchMember) (us : List UserSession)
    → Aligned ms us
    → Aligned (keep (λ m. stays us_name m.user_session) ms) (keep (λ u. stays us_name u.name) us)
Aligned-keep n [] [] h = tt
Aligned-keep n [] (u ∷ us) h = elim h [ ]
Aligned-keep n (m ∷ ms) [] h = elim h [ ]
Aligned-keep n (m ∷ ms) (u ∷ us) (a, b, c, h) =
    let rest = Aligned-keep n ms us h in
    let same = ap (λ s. has_segment s n) a in
    elim (Bool-cases (has_segment u.name n)) [
      | inl e ↦ rw (same ∙ e, e) rest
      | inr e ↦ rw (same ∙ e, e) (a, b, c, rest)
    ]

has_uid-keep :
    (p : PublicMatchMember → Bool) (ms : List PublicMatchMember) (uid : String)
    → public_match_has_uid ms uid ≡ false
    → public_match_has_uid (keep p ms) uid ≡ false
unfolding public_match_has_uid
has_uid-keep p [] uid h = refl
has_uid-keep p (m ∷ ms) uid h = ground (arith, has_uid-keep p ms uid)

Distinct-keep :
    (p : PublicMatchMember → Bool) (ms : List PublicMatchMember)
    → Distinct ms
    → Distinct (keep p ms)
Distinct-keep p [] d = tt
Distinct-keep p (m ∷ ms) (a, d) = elim (Bool-cases (p m)) [
  | inl e ↦ rw e (has_uid-keep p ms (member_uid m) a, Distinct-keep p ms d)
  | inr e ↦ rw e (Distinct-keep p ms d)
]

length-zero : (us : List UserSession) → eqb (length us) 0 ≡ true → us ≡ []
length-zero [] h = refl
length-zero (u ∷ us) h = ground arith

depart_session-IsSized :
    (gs : GameSession) (n : String) → IsSized gs → IsSized (depart_session gs n)
unfolding depart_session
depart_session-IsSized gs n h =
    let le = length-keep-le (λ u. stays n u.name) gs.user_sessions in
    let small : length (keep (λ u. stays n u.name) gs.user_sessions) < 2147483648 =
      ground (arith, le, h.counted, h.fits, h.range) in
    record {
      counted = to_int32_small _ small;
      fits = rw (to_int32_small _ small) (ground (arith, le, h.counted, h.fits));
      range = h.range;
    }

emptied : (us : List UserSession) (n : String) → us ≡ [] → keep (λ u. stays n u.name) us ≡ []
emptied us n h = ap (keep (λ u. stays n u.name)) h

depart_session-IsLive : (gs : GameSession) (n : String) → IsLive gs → IsLive (depart_session gs n)
unfolding depart_session
depart_session-IsLive gs n (inl act) =
    elim (Bool-cases (eqb (length (keep (λ u. stays n u.name) gs.user_sessions)) 0)) [
      | inl e ↦ inr (rw e, length-zero _ e, rw e)
      | inr e ↦ inl (rw e act)
    ]
depart_session-IsLive gs n (inr (term, users, shut)) =
    rw (emptied gs.user_sessions n users) (inr (refl, refl, refl))

depart_session-IsSession :
    (id : String) (gs : GameSession) (n : String)
    → IsSession id gs
    → IsSession id (depart_session gs n)
unfolding depart_session
depart_session-IsSession id gs n h = record {
  named = h.named;
  sized = depart_session-IsSized gs n h.sized;
  live = depart_session-IsLive gs n h.live;
}

-- A departure from a registry that keeps the invariant leaves every session with the counts of its
-- users and within its maximum, and active or closed, and every pool in step with its session.
pub depart-IsRegistry :
    (r : SessionRegistry) (game_session user_session : String)
    → IsRegistry r
    → IsRegistry (depart r game_session user_session)
unfolding depart depart_pooled depart_pool depart_session
depart-IsRegistry r game_session user_session inv =
    let id = last_resource_segment game_session in
    elim (Option-cases (get r.sessions id)) [
      | inl e ↦ rw (e, depart) inv
      | inr (gs, e) ↦
          let new = depart_session-IsSession id gs user_session (inv.sessions id gs e) in
          elim (Option-cases (get r.pooled id)) [
            | inl f ↦ rw (e, f, depart, depart_pooled) (set_session-IsRegistry r id _ inv new f)
            | inr (pool, f) ↦
                let v = inv.pooled id pool f in
                rw (e, f, depart, depart_pooled)
                  (set_pool-IsRegistry r id _ _ inv new
                    (Aligned-keep user_session pool.members gs.user_sessions (IsPooled-Aligned v e))
                    (Distinct-keep _ pool.members v.distinct))
          ]
    ]

-- Keys of pooled sessions stay known.
pub depart-IsKnown :
    (r : SessionRegistry) (game_session user_session id : String)
    → IsKnown r id
    → IsKnown (depart r game_session user_session) id
unfolding depart depart_pooled
depart-IsKnown r game_session user_session id k =
    let key = last_resource_segment game_session in
    elim (Option-cases (get r.sessions key)) [
      | inl e ↦ rw (e, depart) k
      | inr (gs, e) ↦ elim (Option-cases (get r.pooled key)) [
        | inl f ↦ rw (e, f, depart, depart_pooled) k
        | inr (pool, f) ↦ rw (e, f, depart, depart_pooled) (set_pool-IsKnown r key gs _ id k)
      ]
    ]
