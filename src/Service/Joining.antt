-- ===== src/Service/Joining.antt =====
-- Who is in a session after a join.
use super_mario_bros_wonder.Base.{
  String, true, false, some, List, [], ◌∷◌, ◌++◌, ◌≡◌, refl, sym, ap, subst, ◌∙◌, inl, inr, get,
  get-put_self, any, any-append, arith, eq_iff, Bool-cases, Option-cases, Result-cases, Result, ok,
  err, not_found,
}
use super_mario_bros_wonder.Proto.{
  UserDefinition, UserSession, UserSessionState, GameSession, GameSessionState,
}
use super_mario_bros_wonder.Names.{last_resource_segment, user_path, user_id_from_path}
use super_mario_bros_wonder.Names.Segments.{IsSegment, user_id_from_path-user_path}
use super_mario_bros_wonder.Tokens.{Codec}
use super_mario_bros_wonder.Registry.{
  SessionRegistry, session_has_uid, is_active_user, depart, depart_session,
}
use super_mario_bros_wonder.Sessions.{Friends, room_visible}
use super_mario_bros_wonder.Server.{Server, Env, Clock}
use super_mario_bros_wonder.Matchmaking.{
  Pool, public_match_has_uid, definition_uid, new_user_session, add_member, add_members, recount,
  add_public_match_members,
}
use super_mario_bros_wonder.Matchmaking.Members.{
  Aligned, session_has_uid-Aligned, named_definition_uid,
}
use super_mario_bros_wonder.Pools.{pool_at}
use super_mario_bros_wonder.Service.{
  joining_definition, append_user, admit, check_entry, join_session, join_answer, JoinAnswer,
}
use super_mario_bros_wonder.Invariant.{IsServer, IsSession}
use super_mario_bros_wonder.Invariant.Rooms.{join_session-IsServer}
use super_mario_bros_wonder.Invariant.Placed.{pool_at-IsGood}

-- The definition that joins names the caller.
joining_definition-user :
    (uid : String) (ds : List UserDefinition) → (joining_definition uid ds).user ≡ user_path uid
joining_definition-user uid [] = refl
joining_definition-user uid (d ∷ ds) = refl

joined_last :
    (us : List UserSession) (u : UserSession) (uid : String)
    → user_id_from_path u.user ≡ uid
    → u.state ≡ UserSessionState.active
    → any (is_active_user uid) (us ++ (u ∷ [])) ≡ true
joined_last us u uid h a =
    rw (any-append (is_active_user uid) us (u ∷ []), a)
      (ground (arith, eq_iff (user_id_from_path u.user) uid))

append_user-session_has_uid :
    (clock : Clock) (gs : GameSession) (d : UserDefinition) (uid : String)
    → d.user ≡ user_path uid
    → IsSegment uid
    → session_has_uid (some (append_user clock gs d)) uid ≡ true
unfolding append_user session_has_uid
append_user-session_has_uid clock gs d uid h s =
    joined_last gs.user_sessions _ uid (rw h (user_id_from_path-user_path uid s)) refl

-- One who enters a pool is an active user of its session.
pub add-session_has_uid :
    (codec : Codec) (clock : Clock) (p : Pool) (d : UserDefinition) (uid : String)
    → (user_id_from_path d.user ≡ uid)
    → IsSegment uid
    → Aligned p.members p.session.user_sessions
    → session_has_uid (some (add_public_match_members codec clock p (d ∷ []) uid).session) uid
      ≡ true
unfolding add_public_match_members add_members add_member new_user_session recount session_has_uid
add-session_has_uid codec clock p d uid h s a =
    elim (Bool-cases (public_match_has_uid p.members uid)) [
      | inl e ↦
          rw (e, session_has_uid, session_has_uid-Aligned p.members p.session.user_sessions uid a) e
      | inr e ↦
          rw (e, same, e)
            (joined_last p.session.user_sessions _ uid
              (named_definition_uid codec clock d uid s ∙ same) refl)
    ]
  where
    same : definition_uid d uid ≡ uid
    same = ground (arith, h, eq_iff (user_id_from_path d.user) "")

-- The session that an admission writes has the caller in it.
admit-session_has_uid :
    (env : Env) (clock : Clock) (s : Server) (id : String) (gs : GameSession) (uid : String)
    (ds : List UserDefinition)
    → IsSegment uid
    → IsServer s
    → let (s', joined) = admit env clock s id gs uid ds in
      (get s'.registry.sessions id ≡ some joined) × (session_has_uid (some joined) uid ≡ true)
unfolding admit
admit-session_has_uid env clock s id gs uid ds seg inv =
    let d = joining_definition uid ds in
    let user = joining_definition-user uid ds in
    elim (Option-cases (pool_at s.registry id)) [
      | inl f ↦
          rw (f, admit)
            (
              get-put_self s.registry.sessions id _,
              append_user-session_has_uid clock gs d uid user seg,
            )
      | inr (p, f) ↦
          rw (f, admit)
            (
              get-put_self s.registry.sessions id _,
              add-session_has_uid env.codec clock p d uid
                  (rw user (user_id_from_path-user_path uid seg)) seg
                  (pool_at-IsGood s.registry id inv.registry f).aligned,
            )
    ]

-- What is shown to a caller who is in the session that is stored.
abbrev IsSeated : Env → Clock → String → String → List String → Server → JoinAnswer → Type 0
IsSeated env clock id uid include s answer =
    (gs : GameSession) × (get s.registry.sessions id ≡ some gs)
    × (session_has_uid (some gs) uid ≡ true)
    × (answer ≡ join_answer env clock gs uid include)

abbrev WhenSeated :
    Env → Clock → String → String → List String → Server × Result JoinAnswer → Type 0
WhenSeated env clock id uid include (s, err c) = Unit {0}
WhenSeated env clock id uid include (s, ok answer) = IsSeated env clock id uid include s answer

admit-WhenSeated :
    (env : Env) (clock : Clock) (s : Server) (id : String) (gs : GameSession) (uid : String)
    (ds : List UserDefinition) (include : List String)
    → IsSegment uid
    → IsServer s
    → let (s', joined) = admit env clock s id gs uid ds in
      IsSeated env clock id uid include s' (join_answer env clock joined uid include)
admit-WhenSeated env clock s id gs uid ds include seg inv =
    let (stored, seated) = admit-session_has_uid env clock s id gs uid ds seg inv in
    ((admit env clock s id gs uid ds).1, stored, seated, refl)

join_session-WhenSeated :
    (env : Env) (clock : Clock) (s : Server) (uid : String) (friends : Friends)
    (id password : String) (ds : List UserDefinition) (include : List String)
    → IsSegment uid
    → IsServer s
    → WhenSeated env clock id uid include
        (join_session env clock s uid friends id password ds include)
unfolding join_session
join_session-WhenSeated env clock s uid friends id password ds include seg inv =
    elim (Option-cases (get s.registry.sessions id)) [
      | inl e ↦ rw (e, join_session) tt
      | inr (gs, e) ↦ elim (Bool-cases (room_visible (some gs) uid friends)) [
        | inr f ↦ rw (e, f, join_session) tt
        | inl f ↦ elim (Bool-cases (session_has_uid (some gs) uid)) [
          | inl g ↦ rw (e, f, g, join_session) (gs, e, g, refl)
          | inr g ↦ elim (Result-cases (check_entry gs password)) [
            | inr (c, i) ↦ rw (e, f, g, i, join_session) tt
            | inl (u, i) ↦
                rw (e, f, g, i, join_session)
                  (admit-WhenSeated env clock s id gs uid ds include seg inv)
          ]
        ]
      ]
    ]

-- A join that succeeds answers the safe view of the session that is stored, and the caller is an
-- active user of it. The state keeps the invariant, and the uid holds no slash.
pub join_session-session_has_uid :
    (env : Env) (clock : Clock) (s s' : Server) (uid : String) (friends : Friends)
    (id password : String) (ds : List UserDefinition) (include : List String) (answer : JoinAnswer)
    → IsSegment uid
    → IsServer s
    → join_session env clock s uid friends id password ds include ≡ (s', ok answer)
    → (gs : GameSession) × (get s'.registry.sessions id ≡ some gs)
      × (session_has_uid (some gs) uid ≡ true)
      × (answer ≡ join_answer env clock gs uid include)
join_session-session_has_uid env clock s s' uid friends id password ds include answer seg inv h =
    subst (WhenSeated env clock id uid include) h
      (join_session-WhenSeated env clock s uid friends id password ds include seg inv)

seated-active :
    (id uid : String) (gs : GameSession)
    → IsSession id gs
    → session_has_uid (some gs) uid ≡ true
    → gs.state ≡ GameSessionState.active
unfolding session_has_uid
seated-active id uid gs i h = elim i.live [
  | inl active ↦ active
  | inr (ended, empty, shut) ↦
      let f : any (is_active_user uid) [] ≡ true = rw empty at h in absurd (ground arith)
]

rejoin :
    (env : Env) (clock : Clock) (s : Server) (uid : String) (friends : Friends)
    (id password : String) (ds : List UserDefinition) (include : List String) (gs : GameSession)
    → get s.registry.sessions id ≡ some gs
    → gs.state ≡ GameSessionState.active
    → session_has_uid (some gs) uid ≡ true
    → join_session env clock s uid friends id password ds include
      ≡ (s, ok (join_answer env clock gs uid include))
unfolding join_session room_visible session_has_uid
rejoin env clock s uid friends id password ds include gs e a h =
    let seen : room_visible (some gs) uid friends ≡ true = rw (a, room_visible, h) in
    rw (e, join_session, seen, h, join_session)

-- One who has joined a session can join it again: whatever password, definitions, friends and time the
-- second call comes with, it succeeds, changes nothing and answers the same view of the session. The
-- state before the first call keeps the invariant, and the uid holds no slash.
pub join_session-join_session :
    (env : Env) (clock later : Clock) (s s' : Server) (uid : String) (friends friends' : Friends)
    (id password password' : String) (ds ds' : List UserDefinition) (include include' : List String)
    (answer : JoinAnswer)
    → IsSegment uid
    → IsServer s
    → join_session env clock s uid friends id password ds include ≡ (s', ok answer)
    → (again : JoinAnswer) × (join_session env later s' uid friends' id password' ds' include'
        ≡ (s', ok again))
      × (again.game_session ≡ answer.game_session)
join_session-join_session env clock later s s' uid friends friends' id password password' ds ds'
      include include' answer seg inv h =
    let (gs, e, seated, shown) =
      join_session-session_has_uid env clock s s' uid friends id password ds include answer seg inv
        h in
    let kept : IsServer s' =
      subst (λ (r : Server × Result JoinAnswer). IsServer r.0) h
        (join_session-IsServer env clock s uid friends id password ds include seg inv) in
    let active = seated-active id uid gs (kept.registry.sessions id gs e) seated in
    (
      join_answer env later gs uid include',
      rejoin env later s' uid friends' id password' ds' include' gs e active seated,
      sym (ap (λ (a : JoinAnswer). a.game_session) shown),
    )

get-depart :
    (r : SessionRegistry) (game_session user_session : String) (gs : GameSession)
    → let id = last_resource_segment game_session in
      get r.sessions id ≡ some gs
      → get (depart r game_session user_session).sessions id ≡ some (depart_session gs user_session)
unfolding depart
get-depart r game_session user_session gs e =
    rw (e, depart) (get-put_self r.sessions (last_resource_segment game_session) _)

closed-room_visible :
    (gs : GameSession) (user_session uid : String) (friends : Friends)
    → (depart_session gs user_session).user_sessions ≡ []
    → room_visible (some (depart_session gs user_session)) uid friends ≡ false
unfolding room_visible depart_session
closed-room_visible gs user_session uid friends f = rw (f, room_visible)

-- Nobody joins a session that has been closed: after the last departure every join finds nothing
-- and changes nothing, whoever calls and whatever the password is.
pub join_session-depart :
    (env : Env) (clock : Clock) (s : Server) (game_session user_session : String) (gs : GameSession)
    (uid : String) (friends : Friends) (password : String) (ds : List UserDefinition)
    (include : List String)
    → let id = last_resource_segment game_session in
      let s' : Server = record s { registry = depart s.registry game_session user_session } in
      get s.registry.sessions id ≡ some gs
      → (depart_session gs user_session).user_sessions ≡ []
      → join_session env clock s' uid friends id password ds include ≡ (s', err not_found)
unfolding join_session
join_session-depart env clock s game_session user_session gs uid friends password ds include e f =
    rw (
      get-depart s.registry game_session user_session gs e,
      join_session,
      closed-room_visible gs user_session uid friends f,
      join_session,
    )
