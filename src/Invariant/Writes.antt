-- ===== src/Invariant/Writes.antt =====
-- session_registry.go: writes to the registry and the invariant.
use super_mario_bros_wonder.Base.{
  String, none, some, ◌==◌, ◌≡◌, refl, sym, subst, ◌≢◌, inl, inr, get, put, get-put, get-put_self,
  get-put_ne, get-put-eq-some, Bool-cases,
}
use super_mario_bros_wonder.Proto.{GameSession}
use super_mario_bros_wonder.Registry.{SessionRegistry, PublicMatchSession}
use super_mario_bros_wonder.Server.{set_pool, set_session}
use super_mario_bros_wonder.Matchmaking.Members.{Aligned, Distinct}
use super_mario_bros_wonder.Invariant.{IsSession, IsPooled, IsRegistry, IsKnown}

-- What a key names is one session.
pub IsPooled-Aligned :
    {r : SessionRegistry} {id : String} {p : PublicMatchSession} {gs : GameSession}
    → IsPooled r id p
    → get r.sessions id ≡ some gs
    → Aligned p.members gs.user_sessions
IsPooled-Aligned {p} {gs} v e =
    let same : v.session ≡ gs = cc (v.stored, e) in
    subst (λ (g : GameSession). Aligned p.members g.user_sessions) same v.aligned

module _ (r : SessionRegistry) (id : String) (gs : GameSession) where
  put-IsSession :
      IsRegistry r
      → IsSession id gs
      → (j : String) (g : GameSession) → get (put r.sessions id gs) j ≡ some g
      → IsSession j g
  put-IsSession inv new j g h = elim (get-put-eq-some r.sessions id j h) [
    | inl (e, f) ↦ subst (λ k. IsSession k g) e (subst (IsSession id) f new)
    | inr (_, old) ↦ inv.sessions j g old
  ]

  kept-IsPooled :
      (s : SessionRegistry) (j : String) (p : PublicMatchSession)
      → s.sessions ≡ put r.sessions id gs
      → id ≢ j
      → IsPooled r j p
      → IsPooled s j p
  kept-IsPooled s j p e ne v = record {
    session = v.session;
    stored = rw (e, get-put_ne r.sessions id j gs ne) v.stored;
    aligned = v.aligned;
    distinct = v.distinct;
  }

  -- A session and its pool are written together.
  pub set_pool-IsRegistry :
      (p : PublicMatchSession)
      → IsRegistry r
      → IsSession id gs
      → Aligned p.members gs.user_sessions
      → Distinct p.members
      → IsRegistry (set_pool r id gs p)
  set_pool-IsRegistry p inv new a d = record {
    sessions = put-IsSession inv new;
    pooled = λ j q h. elim (get-put-eq-some r.pooled id j h) [
      | inl (e, f) ↦
          subst (λ k. IsPooled (set_pool r id gs p) k q) e
            (subst (IsPooled (set_pool r id gs p) id) f (record {
              session = gs;
              stored = get-put_self r.sessions id gs;
              aligned = a;
              distinct = d;
            }))
      | inr (ne, old) ↦ kept-IsPooled (set_pool r id gs p) j q refl ne (inv.pooled j q old)
    ];
  }

  -- A session that no pool keeps.
  pub set_session-IsRegistry :
      IsRegistry r → IsSession id gs → get r.pooled id ≡ none → IsRegistry (set_session r id gs)
  set_session-IsRegistry inv new unpooled = record {
    sessions = put-IsSession inv new;
    pooled = λ j q h.
        kept-IsPooled (set_session r id gs) j q refl
          (λ e. cc (subst (λ k. get r.pooled k ≡ some q) (sym e) h, unpooled)) (inv.pooled j q h);
  }

-- Keys of pooled sessions stay known.
pub set_pool-IsKnown :
    (r : SessionRegistry) (id : String) (gs : GameSession) (p : PublicMatchSession) (j : String)
    → IsKnown r j
    → IsKnown (set_pool r id gs p) j
set_pool-IsKnown r id gs p j h =
    rw (get-put r.pooled id j p) (elim (Bool-cases (id == j)) [ inl e ↦ rw e | inr e ↦ rw e h ])

pub set_pool-IsKnown_self :
    (r : SessionRegistry) (id : String) (gs : GameSession) (p : PublicMatchSession)
    → IsKnown (set_pool r id gs p) id
set_pool-IsKnown_self r id gs p = rw (get-put_self r.pooled id p)
