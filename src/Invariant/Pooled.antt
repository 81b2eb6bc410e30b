-- ===== src/Invariant/Pooled.antt =====
-- matchmaking.go: one user and one pooled session.
use super_mario_bros_wonder.Base.{
  String, pos, true, false, some, [], ◌∷◌, ◌+◌, ◌≤◌, ◌<◌, ◌≡◌, refl, sym, ap, ◌∙◌, inl, inr, length,
  length-append, to_int32, to_int32_small, wrap32, ◌⊎◌, pos_part, arith, Bool-cases,
}
use super_mario_bros_wonder.Proto.{UserDefinition, GameSessionState, is_session_active}
use super_mario_bros_wonder.Names.{last_resource_segment}
use super_mario_bros_wonder.Names.Segments.{IsSegment}
use super_mario_bros_wonder.Tokens.{Codec}
use super_mario_bros_wonder.Server.{Clock}
use super_mario_bros_wonder.Matchmaking.{
  Pool, public_match_has_uid, add_member, add_members, add_public_match_members, recount,
  definition_uid,
}
use super_mario_bros_wonder.Matchmaking.Members.{
  Aligned, length-Aligned, add_public_match_members-IsPool, add_member-Aligned,
}
use super_mario_bros_wonder.Pools.{is_joined, has_room}
use super_mario_bros_wonder.Invariant.{IsSized, IsSession, IsGood, int32_max}

-- What a round of the loop leaves as it was.
pub record Joined (p q : Pool) : Type 0 where
  pub name : q.session.name ≡ p.session.name
  pub state : q.session.state ≡ p.session.state
  pub can_participate : q.session.can_participate ≡ p.session.can_participate
  pub pool_key : q.pool_key ≡ p.pool_key

module _ (codec : Codec) (clock : Clock) where
  add_member-Joined :
      (p : Pool) (caller_uid : String) (d : UserDefinition)
      → Joined p (add_member codec clock p caller_uid d)
  unfolding add_member
  add_member-Joined p caller_uid d =
      elim (Bool-cases (public_match_has_uid p.members (definition_uid d caller_uid))) [
        | inl e ↦
            rw e (record { name = refl; state = refl; can_participate = refl; pool_key = refl })
        | inr e ↦
            rw e (record { name = refl; state = refl; can_participate = refl; pool_key = refl })
      ]

  add_member-max :
      (p : Pool) (caller_uid : String) (d : UserDefinition)
      → (add_member codec clock p caller_uid d).session.max_participant_count
        ≡ p.session.max_participant_count
  unfolding add_member
  add_member-max p caller_uid d =
      elim (Bool-cases (public_match_has_uid p.members (definition_uid d caller_uid))) [
        | inl e ↦ rw e
        | inr e ↦ rw e
      ]

  add_member-length :
      (p : Pool) (caller_uid : String) (d : UserDefinition)
      → length (add_member codec clock p caller_uid d).members ≤ length p.members + 1
  unfolding add_member
  add_member-length p caller_uid d =
      elim (Bool-cases (public_match_has_uid p.members (definition_uid d caller_uid))) [
        | inl e ↦ rw e (omega arith)
        | inr e ↦ rw (e, length-append p.members) (omega arith)
      ]

recount-IsSized :
    (p : Pool)
    → Aligned p.members p.session.user_sessions
    → length p.members < int32_max
    → pos_part p.session.max_participant_count < int32_max
    → IsSized (recount p).session
unfolding recount
recount-IsSized p a h r =
    rw
      (
        to_int32_small (length p.members) (omega arith),
        length-Aligned p.members p.session.user_sessions a,
      )
      (record {
        counted = refl;
        fits = ground arith;
        range = ground (arith, length-Aligned p.members p.session.user_sessions a);
      })

module _ (codec : Codec) (clock : Clock) where
  -- A user who is not in a pool yet joins an active session with a place in 32 bits.
  pub join-IsSession :
      (id : String) (p : Pool) (d : UserDefinition) (uid : String)
      → IsSegment uid
      → last_resource_segment p.session.name ≡ id
      → p.session.state ≡ GameSessionState.active
      → pos_part p.session.max_participant_count < int32_max
      → Aligned p.members p.session.user_sessions
      → length p.members + 1 < int32_max
      → public_match_has_uid p.members uid ≡ false
      → IsSession id (add_public_match_members codec clock p (d ∷ []) uid).session
  unfolding add_public_match_members add_members recount
  join-IsSession id p d uid s n act r a l e =
      let q = add_member codec clock p uid d in
      let j = add_member-Joined codec clock p uid d in
      rw e (record {
        named = ap last_resource_segment j.name ∙ n;
        sized =
            recount-IsSized q (add_member-Aligned codec clock p uid d a)
              (omega (arith, add_member-length codec clock p uid d))
              (rw (add_member-max codec clock p uid d) r);
        live = inl (j.state ∙ act);
      })

is_session_active-eq-true :
    (s : GameSessionState) → is_session_active s ≡ true → s ≡ GameSessionState.active
is_session_active-eq-true s h = ground arith

-- What the selection has found of a session: the user is in it, or it has room for one.
abbrev pub IsOpenTo : String → Pool → Type 0
IsOpenTo uid p = (is_joined uid (some p) ≡ true) ⊎ (has_room (pos 1) (some p) ≡ true)

counted_as :
    (p : Pool)
    → IsSized p.session
    → length p.members ≡ length p.session.user_sessions
    → p.session.current_participant_count ≡ to_int32 (length p.members)
counted_as p v same =
    let n = length p.session.user_sessions in
    let small : n < 2147483648 = ground (arith, v.counted, v.fits, v.range) in
    rw same (v.counted ∙ sym (to_int32_small n small))

room_for_one :
    (id : String) (p : Pool)
    → IsSession id p.session
    → Aligned p.members p.session.user_sessions
    → has_room (pos 1) (some p) ≡ true
    → length p.members + 1 < int32_max
unfolding wrap32
room_for_one id p v a h =
    let n = length p.session.user_sessions in
    ground (
      arith,
      v.sized.counted,
      v.sized.fits,
      v.sized.range,
      to_int32_small (n + 1),
      length-Aligned p.members p.session.user_sessions a,
    )

open-active : (uid : String) (p : Pool) → IsOpenTo uid p → is_session_active p.session.state ≡ true
open-active uid p (inl h) = ground arith
open-active uid p (inr h) = ground arith

module _ (codec : Codec) (clock : Clock) where
  -- One user enters a session that is open to them.
  pub enter-IsSession :
      (id : String) (p : Pool) (d : UserDefinition) (uid : String)
      → IsSegment uid
      → IsSession id p.session
      → Aligned p.members p.session.user_sessions
      → IsOpenTo uid p
      → IsSession id (add_public_match_members codec clock p (d ∷ []) uid).session
  unfolding add_public_match_members
  enter-IsSession id p d uid s v a o = elim (Bool-cases (public_match_has_uid p.members uid)) [
    | inl e ↦ rw (e, add_public_match_members) v
    | inr e ↦
        join-IsSession codec clock id p d uid s v.named
          (is_session_active-eq-true p.session.state (open-active uid p o)) v.sized.range a
          (elim o [
            | inl joined ↦ absurd (ground (arith, joined, e))
            | inr room ↦ room_for_one id p v a room
          ])
          e
  ]

  pub enter-IsGood :
      (id : String) (p : Pool) (d : UserDefinition) (uid : String)
      → IsSegment uid
      → IsGood id p
      → IsOpenTo uid p
      → IsGood id (add_public_match_members codec clock p (d ∷ []) uid)
  enter-IsGood id p d uid s g o =
      let v = g.session in
      let pool = add_public_match_members-IsPool codec clock p (d ∷ []) uid s (record {
        aligned = g.aligned;
        distinct = g.distinct;
        counted = counted_as p v.sized (length-Aligned p.members p.session.user_sessions g.aligned);
        fits = v.sized.fits;
      }) in
      record {
        session = enter-IsSession id p d uid s v g.aligned o;
        aligned = pool.aligned;
        distinct = pool.distinct;
      }
