-- ===== src/Invariant/Placed.antt =====
-- matchmaking.go: pooled sessions that are written back and the invariant.
use super_mario_bros_wonder.Base.{
  String, some, List, [], ◌∷◌, ◌≡◌, refl, subst, inl, inr, get, put, get-put-eq-some, arith,
  Option-cases, length, All-map,
}
use super_mario_bros_wonder.Proto.{UserDefinition}
use super_mario_bros_wonder.Registry.{SessionRegistry}
use super_mario_bros_wonder.Server.{Server}
use super_mario_bros_wonder.Matchmaking.{Pool}
use super_mario_bros_wonder.Pools.{pool_at, join_pool, set_pool_at}
use super_mario_bros_wonder.Invariant.{IsRegistry, IsKnown, IsGood, IsServer}
use super_mario_bros_wonder.Invariant.Writes.{
  set_pool-IsRegistry, set_pool-IsKnown, IsPooled-Aligned,
}

-- The parts of a pooled session that is there.
pub pool_at-eq-some :
    (r : SessionRegistry) (id : String) {p : Pool}
    → pool_at r id ≡ some p
    → (get r.sessions id ≡ some p.session)
      × (get r.pooled id ≡ some (record { pool_key = p.pool_key; members = p.members }))
unfolding pool_at join_pool
pool_at-eq-some r id h = elim (Option-cases (get r.sessions id)) [
  | inl e ↦ cc (rw (e, join_pool) at h)
  | inr (gs, e) ↦ elim (Option-cases (get r.pooled id)) [
    | inl f ↦ cc (rw (e, f, join_pool) at h)
    | inr (pm, f) ↦ (ground (arith, e, f, h), ground (arith, e, f, h))
  ]
]

pub pool_at-IsGood :
    (r : SessionRegistry) (id : String) {p : Pool}
    → IsRegistry r
    → pool_at r id ≡ some p
    → IsGood id p
pool_at-IsGood r id inv h =
    let (e, f) = pool_at-eq-some r id h in
    let v = inv.pooled id _ f in
    record { session = inv.sessions id _ e; aligned = IsPooled-Aligned v e; distinct = v.distinct }

-- Writing a pooled session back, with the tables of the server beside it.
pub set_pool_at-IsServer :
    (s : Server) (id : String) (q : Pool)
    → IsServer s
    → IsGood id q
    → IsServer (record s { registry = set_pool_at s.registry id q })
set_pool_at-IsServer s id q inv g = record {
  registry =
      set_pool-IsRegistry s.registry id q.session _ inv.registry g.session g.aligned g.distinct;
  listed = λ key ids h.
      All-map (λ i k. set_pool-IsKnown s.registry id q.session _ i k) ids (inv.listed key ids h);
  placed = λ t i h. set_pool-IsKnown s.registry id q.session _ i (inv.placed t i h);
  solo = inv.solo;
  solo_creation = inv.solo_creation;
}

-- A ticket is noted for a session that is pooled.
pub note_ticket-IsServer :
    (s : Server) (ticket id : String)
    → IsServer s
    → IsKnown s.registry id
    → IsServer (record s { ticket_sessions = put s.ticket_sessions ticket id })
note_ticket-IsServer s ticket id inv k = record {
  registry = inv.registry;
  listed = inv.listed;
  placed = λ t i h. elim (get-put-eq-some s.ticket_sessions ticket t h) [
    | inl (_, e) ↦ subst (IsKnown s.registry) e k
    | inr (_, old) ↦ inv.placed t i old
  ];
  solo = inv.solo;
  solo_creation = inv.solo_creation;
}

pub solo-cons : {ds : List UserDefinition} → length ds ≡ 1 → (d : UserDefinition) × (ds ≡ d ∷ [])
solo-cons {ds = []} h = absurd (omega arith)
solo-cons {ds = d ∷ []} h = (d, refl)
solo-cons {ds = d ∷ e ∷ ds} h = absurd (omega arith)
