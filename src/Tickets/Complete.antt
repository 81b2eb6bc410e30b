-- ===== src/Tickets/Complete.antt =====
-- Who may act on a matchmaking ticket, and what becomes of it.
use super_mario_bros_wonder.Base.{
  ap, String, ◌+◌, ◌%◌, Option, none, some, List, [], ◌∷◌, ◌⊕◌, ◌≡◌, refl, ◌↔◌, inl, inr, not, true,
  decimal, get, delete, get-put_self, get-delete, eq_refl, arith, eq_iff, Result, ok, map, subst,
  refuse_if, permission_denied, Result-cases, >>=-eq-ok, refuse_if-eq-ok,
}
use super_mario_bros_wonder.Proto.{UserDefinition, MatchmakingTicket}
use super_mario_bros_wonder.Names.{last_resource_segment, npln_tenant, user_path}
use super_mario_bros_wonder.Names.Segments.{
  IsSegment, user_id_from_path-eq, user_id_from_path-user_path,
}
use super_mario_bros_wonder.Auth.{Context, authenticated_npln_uid}
use super_mario_bros_wonder.Auth.Identity.{IsAuthentic, authenticated_npln_uid_iff}
use super_mario_bros_wonder.Sessions.{ticket_owned_by, validate_caller_definitions}
use super_mario_bros_wonder.Server.{Server, Env, Clock}
use super_mario_bros_wonder.Tickets.{
  definitions_of, check_owner, owned_definition, prepare_ticket, store_ticket, or_empty,
  authorize_friend_pool, cancel_matchmaking_ticket, complete_matchmaking_ticket,
}

-- A stored ticket whose one definition names the caller.
pub record IsOwner (s : Server) (name uid : String) : Type 0 where
  pub ticket : MatchmakingTicket
  pub definition : UserDefinition
  pub stored : get s.tickets (last_resource_segment name) ≡ some ticket
  pub solo : ticket.user_definitions ≡ definition ∷ []
  pub named : last_resource_segment definition.user ≡ uid

owned-IsOwner :
    (s : Server) (name uid : String) (t : MatchmakingTicket) (ds : List UserDefinition)
    → get s.tickets (last_resource_segment name) ≡ some t
    → t.user_definitions ≡ ds
    → ticket_owned_by ds uid ≡ true
    → IsOwner s name uid
unfolding ticket_owned_by
owned-IsOwner s name uid t [] e f h = cc
owned-IsOwner s name uid t (d ∷ []) e f h = record {
  ticket = t;
  definition = d;
  stored = e;
  solo = f;
  named = (eq_iff (last_resource_segment d.user) uid).0 h;
}
owned-IsOwner s name uid t (d ∷ d' ∷ ds) e f h = cc

found-IsOwner :
    (s : Server) (name uid : String) (o : Option MatchmakingTicket)
    → get s.tickets (last_resource_segment name) ≡ o
    → ticket_owned_by (definitions_of o) uid ≡ true
    → IsOwner s name uid
unfolding ticket_owned_by
found-IsOwner s name uid none e h = cc
found-IsOwner s name uid (some t) e h = owned-IsOwner s name uid t t.user_definitions e refl h

IsOwner-owned :
    (s : Server) (name uid : String)
    → IsOwner s name uid
    → ticket_owned_by (definitions_of (get s.tickets (last_resource_segment name))) uid ≡ true
unfolding ticket_owned_by
IsOwner-owned s name uid o =
    rw (o.stored, o.solo, ticket_owned_by)
      ((eq_iff (last_resource_segment o.definition.user) uid).1 o.named)

-- A call on a ticket passes for a uid exactly if the uid is authenticated and the one definition of
-- the stored ticket names it.
pub check_owner_iff :
    (env : Env) (clock : Clock) (s : Server) (ctx : Context) (name uid : String)
    → (check_owner env clock s ctx name ≡ ok uid)
      ↔ (IsAuthentic env.verifier clock.unix ctx uid × IsOwner s name uid)
unfolding check_owner
check_owner_iff env clock s ctx name uid = (
  λ h.
      let auth = authenticated_npln_uid env.verifier clock.unix ctx in
      let stored = get s.tickets (last_resource_segment name) in
      let (u, a, h1) = >>=-eq-ok auth _ h in
      let (_, b, h2) =
        >>=-eq-ok (refuse_if (not (ticket_owned_by (definitions_of stored) u)) permission_denied) _
          h1 in
      let same : u ≡ uid = ground (arith, h2) in
      (
        (authenticated_npln_uid_iff env.verifier clock.unix ctx uid).0 (rw same at a),
        found-IsOwner s name uid stored refl (
            subst (λ v. ticket_owned_by (definitions_of stored) v ≡ true) same
              (ground (arith, refuse_if-eq-ok _ _ b))),
      ),
  λ (a, o). rw (
    (authenticated_npln_uid_iff env.verifier clock.unix ctx uid).1 a,
    IsOwner-owned s name uid o,
  ),
)

-- A ticket that has been cancelled is answered to nobody any more, and completing it changes
-- nothing.
pub complete_matchmaking_ticket-cancel_matchmaking_ticket :
    (env : Env) (clock later : Clock) (s s' : Server) (ctx other : Context) (name : String)
    (include : List String)
    → cancel_matchmaking_ticket env clock s ctx name ≡ (s', ok tt)
    → complete_matchmaking_ticket env later s' other name include ≡ (s', none)
unfolding cancel_matchmaking_ticket complete_matchmaking_ticket
complete_matchmaking_ticket-cancel_matchmaking_ticket env clock later s s' ctx other name include
      h =
    let id = last_resource_segment name in
    let gone : get s'.tickets id ≡ none = elim (Result-cases (check_owner env clock s ctx name)) [
      | inr (c, e) ↦ cc (rw (e, cancel_matchmaking_ticket) at h)
      | inl (uid, e) ↦
          let same : delete s.tickets id ≡ s'.tickets =
            ap (λ (x : Server × Result Unit). x.0.tickets)
              (rw (e, cancel_matchmaking_ticket) at h) in
          rw (← same, get-delete s.tickets id id, eq_refl id)
    ] in
    rw (gone, complete_matchmaking_ticket)

owned_definition-user :
    (ctx : Context) (uid : String) (d : UserDefinition)
    → IsSegment uid
    → last_resource_segment (owned_definition ctx uid d).user ≡ uid
owned_definition-user ctx uid d h =
    rw (← user_id_from_path-eq (user_path uid)) (user_id_from_path-user_path uid h)

validated-cons :
    (ds : List UserDefinition) (uid : String) {u : Unit}
    → validate_caller_definitions ds uid ≡ ok u
    → (d : UserDefinition) × (ds ≡ d ∷ [])
unfolding validate_caller_definitions
validated-cons [] uid h = cc
validated-cons (d ∷ []) uid h = (d, refl)
validated-cons (d ∷ e ∷ ds) uid h = cc

prepare_ticket-owned :
    (env : Env) (clock : Clock) (s : Server) (ctx : Context) (supplied : Option MatchmakingTicket)
    (t : MatchmakingTicket) (uid : String)
    → prepare_ticket env clock s ctx supplied ≡ ok t
    → authenticated_npln_uid env.verifier clock.unix ctx ≡ ok uid
    → (d : UserDefinition) × (t.user_definitions ≡ owned_definition ctx uid d ∷ [])
unfolding prepare_ticket
prepare_ticket-owned env clock s ctx supplied t uid h a =
    let given = (or_empty supplied).user_definitions in
    let (_, v, h2) = >>=-eq-ok (validate_caller_definitions given uid) _ (rw a at h) in
    let (_, _, h3) = >>=-eq-ok (authorize_friend_pool s.registry _ _ uid) _ h2 in
    let same : t.user_definitions ≡ map (owned_definition ctx uid) given = ground (arith, h3) in
    let (d, one) = validated-cons given uid v in (d, rw one at same)

-- A ticket that CreateMatchmakingTicket has let through and named is stored under its name, and is
-- its caller's: the same caller passes the check of TrackMatchmakingTicket and
-- CancelMatchmakingTicket while the token is valid. The uid holds no slash.
pub store_ticket-check_owner :
    (env : Env) (clock later : Clock) (earlier s : Server) (ctx : Context)
    (supplied : Option MatchmakingTicket) (t : MatchmakingTicket) (uid : String)
    → prepare_ticket env clock earlier ctx supplied ≡ ok t
    → authenticated_npln_uid env.verifier clock.unix ctx ≡ ok uid
    → authenticated_npln_uid env.verifier later.unix ctx ≡ ok uid
    → IsSegment uid
    → let (s', named) = store_ticket clock s t in
      (get s'.tickets (last_resource_segment named.name) ≡ some named)
      × (check_owner env later s' ctx named.name ≡ ok uid)
unfolding store_ticket
store_ticket-check_owner env clock later earlier s ctx supplied t uid p a b seg =
    let (d, same) = prepare_ticket-owned env clock earlier ctx supplied t uid p a in
    let n = (s.next_ticket_id + 1) % 18446744073709551616 in
    let name =
      npln_tenant
      ⊕ ("/matchmakingTickets" ⊕ ("/" ⊕ ("ticket-" ⊕ (decimal clock.now ⊕ ("-" ⊕ decimal n))))) in
    let stored = get-put_self s.tickets (last_resource_segment name) (record t { name = name }) in
    (
      stored,
      (check_owner_iff env later _ ctx name uid).1 (
        (authenticated_npln_uid_iff env.verifier later.unix ctx uid).0 b,
        record {
          ticket = record t { name = name };
          definition = owned_definition ctx uid d;
          stored = stored;
          solo = same;
          named = owned_definition-user ctx uid d seg;
        },
      ),
    )
