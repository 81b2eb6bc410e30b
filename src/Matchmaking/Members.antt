-- ===== src/Matchmaking/Members.antt =====
-- matchmaking.go: the members of a pooled session and its user sessions.
use super_mario_bros_wonder.Base.{
  String, suc, false, List, [], ◌∷◌, ◌++◌, ◌==◌, ◌≡◌, refl, ap, inl, inr, any, any-append, length,
  to_int32, ◌≤ℤ◌, arith, eq_iff, Bool-cases,
}
use super_mario_bros_wonder.Proto.{UserDefinition, UserSession, UserSessionState}
use super_mario_bros_wonder.Names.{user_id_from_path}
use super_mario_bros_wonder.Names.Segments.{IsSegment, user_id_from_path-user_path}
use super_mario_bros_wonder.Tokens.{Codec}
use super_mario_bros_wonder.Registry.{PublicMatchMember, is_active_user}
use super_mario_bros_wonder.Server.{Clock}
use super_mario_bros_wonder.Matchmaking.{
  Pool, public_match_has_uid, named_definition, definition_uid, or_caller, new_member,
  new_user_session, add_member, add_members, recount, add_public_match_members,
}

abbrev pub member_uid : PublicMatchMember → String
member_uid m = user_id_from_path m.definition.user

-- Each member has its user session, in order: the same name, the same user, and it is active.
abbrev pub Aligned : List PublicMatchMember → List UserSession → Type 0
Aligned [] [] = Unit {0}
Aligned (m ∷ ms) (u ∷ us) =
    (m.user_session ≡ u.name)
    × (m.definition.user ≡ u.user)
    × (u.state ≡ UserSessionState.active)
    × Aligned ms us
Aligned [] (u ∷ us) = ⊥
Aligned (m ∷ ms) [] = ⊥

-- No user is a member twice.
abbrev pub Distinct : List PublicMatchMember → Type 0
Distinct [] = Unit {0}
Distinct (m ∷ ms) = (public_match_has_uid ms (member_uid m) ≡ false) × Distinct ms

-- What holds of a pooled session between two calls.
pub record IsPool (p : Pool) : Type 0 where
  pub aligned : Aligned p.members p.session.user_sessions
  pub distinct : Distinct p.members
  pub counted : p.session.current_participant_count ≡ to_int32 (length p.members)
  pub fits : p.session.current_participant_count ≤ℤ p.session.max_participant_count

Aligned-append :
    (ms : List PublicMatchMember) (us : List UserSession) (m : PublicMatchMember) (u : UserSession)
    → Aligned ms us
    → m.user_session ≡ u.name
    → m.definition.user ≡ u.user
    → u.state ≡ UserSessionState.active
    → Aligned (ms ++ (m ∷ [])) (us ++ (u ∷ []))
Aligned-append [] [] m u h p q r = (p, q, r, tt)
Aligned-append [] (v ∷ us) m u h p q r = elim h [ ]
Aligned-append (n ∷ ms) [] m u h p q r = elim h [ ]
Aligned-append (n ∷ ms) (v ∷ us) m u (a, b, c, h) p q r =
    (a, b, c, Aligned-append ms us m u h p q r)

pub length-Aligned :
    (ms : List PublicMatchMember) (us : List UserSession) → Aligned ms us → length ms ≡ length us
length-Aligned [] [] h = refl
length-Aligned [] (v ∷ us) h = elim h [ ]
length-Aligned (n ∷ ms) [] h = elim h [ ]
length-Aligned (n ∷ ms) (v ∷ us) (a, b, c, h) = ap suc (length-Aligned ms us h)

-- A pool's members are its session's active users.
pub session_has_uid-Aligned :
    (ms : List PublicMatchMember) (us : List UserSession) (uid : String)
    → Aligned ms us
    → any (is_active_user uid) us ≡ public_match_has_uid ms uid
unfolding public_match_has_uid
session_has_uid-Aligned [] [] uid h = refl
session_has_uid-Aligned [] (v ∷ us) uid h = elim h [ ]
session_has_uid-Aligned (n ∷ ms) [] uid h = elim h [ ]
session_has_uid-Aligned (n ∷ ms) (v ∷ us) uid (a, b, c, h) =
    rw (c, ← b) (ground (arith, session_has_uid-Aligned ms us uid h))

Distinct-append :
    (ms : List PublicMatchMember) (m : PublicMatchMember)
    → Distinct ms
    → public_match_has_uid ms (member_uid m) ≡ false
    → Distinct (ms ++ (m ∷ []))
unfolding public_match_has_uid
Distinct-append [] m d h = (refl, tt)
Distinct-append (n ∷ ms) m (a, d) h = (
  rw (any-append (λ k. member_uid k == member_uid n) ms (m ∷ []))
      (ground (arith, eq_iff (member_uid n) (member_uid m), eq_iff (member_uid m) (member_uid n))),
  Distinct-append ms m d (ground arith),
)

module _ (codec : Codec) (clock : Clock) where
  pub named_definition_uid :
      (d : UserDefinition) (caller_uid : String)
      → IsSegment caller_uid
      → user_id_from_path (named_definition d caller_uid).user ≡ definition_uid d caller_uid
  named_definition_uid d caller_uid h =
      ground (arith, user_id_from_path-user_path caller_uid h, eq_iff (user_id_from_path d.user) "")

  -- One definition joins, or its user is a member already.
  pub add_member-Aligned :
      (p : Pool) (caller_uid : String) (d : UserDefinition)
      → Aligned p.members p.session.user_sessions
      → let q = add_member codec clock p caller_uid d in Aligned q.members q.session.user_sessions
  unfolding add_member new_member new_user_session
  add_member-Aligned p caller_uid d h =
      elim (Bool-cases (public_match_has_uid p.members (definition_uid d caller_uid))) [
        | inl e ↦ rw e h
        | inr e ↦ rw e (Aligned-append p.members p.session.user_sessions _ _ h refl refl refl)
      ]

  add_member-Distinct :
      (p : Pool) (caller_uid : String) (d : UserDefinition)
      → IsSegment caller_uid
      → Distinct p.members
      → Distinct (add_member codec clock p caller_uid d).members
  unfolding add_member new_member
  add_member-Distinct p caller_uid d s h =
      elim (Bool-cases (public_match_has_uid p.members (definition_uid d caller_uid))) [
        | inl e ↦ rw e h
        | inr e ↦ rw e (Distinct-append p.members _ h (rw (named_definition_uid d caller_uid s) e))
      ]

  add_members-Aligned :
      (p : Pool) (caller_uid : String) (ds : List UserDefinition)
      → Aligned p.members p.session.user_sessions
      → let q = add_members codec clock p caller_uid ds in Aligned q.members q.session.user_sessions
  unfolding add_members
  add_members-Aligned p caller_uid [] h = h
  add_members-Aligned p caller_uid (d ∷ ds) h =
      add_members-Aligned (add_member codec clock p caller_uid d) caller_uid ds
        (add_member-Aligned p caller_uid d h)

  add_members-Distinct :
      (p : Pool) (caller_uid : String) (ds : List UserDefinition)
      → IsSegment caller_uid
      → Distinct p.members
      → Distinct (add_members codec clock p caller_uid ds).members
  unfolding add_members
  add_members-Distinct p caller_uid [] s h = h
  add_members-Distinct p caller_uid (d ∷ ds) s h =
      add_members-Distinct (add_member codec clock p caller_uid d) caller_uid ds s
        (add_member-Distinct p caller_uid d s h)

  recount-IsPool :
      (p : Pool)
      → Aligned p.members p.session.user_sessions
      → Distinct p.members
      → IsPool (recount p)
  unfolding recount
  recount-IsPool p a d = record { aligned = a; distinct = d; counted = refl; fits = ground arith }

  -- Adding the users of a ticket to a pooled session that is in order keeps its members distinct and
  -- in step with the active user sessions, with the counts right and within the maximum. The caller's
  -- uid holds no slash.
  pub add_public_match_members-IsPool :
      (p : Pool) (ds : List UserDefinition) (caller_uid : String)
      → IsSegment caller_uid
      → IsPool p
      → IsPool (add_public_match_members codec clock p ds caller_uid)
  unfolding add_public_match_members
  add_public_match_members-IsPool p ds caller_uid s h =
      elim (Bool-cases (public_match_has_uid p.members caller_uid)) [
        | inl e ↦ rw e h
        | inr e ↦ rw e (
            recount-IsPool _ (add_members-Aligned p caller_uid (or_caller caller_uid ds) h.aligned)
              (add_members-Distinct p caller_uid (or_caller caller_uid ds) s h.distinct))
      ]
