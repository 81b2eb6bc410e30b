-- ===== src/Pools/Select.antt =====
-- Which session a ticket is given.
use super_mario_bros_wonder.Base.{
  String, ℕ, pos, Bool, true, Option, none, some, List, [], ◌∷◌, ◌+◌, ◌%◌, ◌<◌, ◌≡◌, refl, subst,
  inl, inr, get-put_self, arith, Bool-cases, Option-cases, ◌≤ℤ◌, pos_part, to_int32_small,
}
use super_mario_bros_wonder.Proto.{UserDefinition, is_session_active}
use super_mario_bros_wonder.Registry.{SessionRegistry}
use super_mario_bros_wonder.Server.{Server, Settings}
use super_mario_bros_wonder.Matchmaking.{Pool, public_match_capacity, public_match_pool_key}
use super_mario_bros_wonder.Pools.{
  session_path, session_id, pool_at, join_pool, is_joined, has_room, find_session, pool_keys,
  required_slots, fresh_session, new_public_match_session, or_else, select_public_match_session,
}

-- The key that the search answers passes the test, and is one of the keys searched.
pub find_session-eq-some :
    (r : SessionRegistry) (test : Option Pool → Bool) (ids : List String) (id : String)
    → find_session r test ids ≡ some id
    → test (pool_at r id) ≡ true
unfolding find_session
find_session-eq-some r test [] id h = cc
find_session-eq-some r test (i ∷ ids) id h = elim (Bool-cases (test (pool_at r i))) [
  | inl e ↦
      let same : i ≡ id = ground (arith, e, h) in subst (λ k. test (pool_at r k) ≡ true) same e
  | inr e ↦ find_session-eq-some r test ids id (ground (arith, e, h))
]

module _ (settings : Settings) (now : ℕ) (s : Server) (config : String)
    (definitions : List UserDefinition) (uid : String) where
  abbrev ids : List String
  ids = pool_keys s (public_match_pool_key config definitions)

  abbrev made : Server × String
  made =
      new_public_match_session settings now s config definitions
        (public_match_pool_key config definitions)

  -- The three outcomes of the selection, and when each is taken.
  pub select_cases {ℓ} :
      (P : Server × String → Type ℓ)
      → ((id : String) → find_session s.registry (is_joined uid) ids ≡ some id → P (s, id))
      → ((id : String)
          → find_session s.registry (is_joined uid) ids ≡ none
          → find_session s.registry (has_room (required_slots definitions)) ids ≡ some id
          → P (s, id))
      → (find_session s.registry (is_joined uid) ids ≡ none
          → find_session s.registry (has_room (required_slots definitions)) ids ≡ none
          → P made)
      → P (select_public_match_session settings now s config definitions uid)
  unfolding select_public_match_session or_else
  select_cases P joined room fresh =
      elim (Option-cases (find_session s.registry (is_joined uid) ids)) [
        | inr (id, e) ↦ rw (e, or_else) (joined id e)
        | inl e ↦
            elim (Option-cases
              (find_session s.registry (has_room (required_slots definitions)) ids)) [
                | inr (id, f) ↦ rw (e, f, or_else) (room id e f)
                | inl f ↦ rw (e, f, or_else) (fresh e f)
              ]
      ]

-- The pooled session that is made for a ticket.
pub pool_at-made :
    (settings : Settings) (now : ℕ) (s : Server) (config : String)
    (definitions : List UserDefinition) (pool_key : String)
    → let (s', id) = new_public_match_session settings now s config definitions pool_key in
      (p : Pool) × (pool_at s'.registry id ≡ some p)
      × (p.members ≡ [])
      × (p.session.max_participant_count ≡ public_match_capacity settings config)
      × (p.session.current_participant_count ≡ pos 0)
      × (is_session_active p.session.state ≡ true)
unfolding new_public_match_session pool_at join_pool fresh_session
pool_at-made settings now s config definitions pool_key = (
  record {
    session =
        fresh_session settings now
          (session_path (session_id now ((s.next_match_id + 1) % 18446744073709551616))) config
          definitions;
    pool_key = pool_key;
    members = [];
  },
  rw (get-put_self s.registry.sessions, get-put_self s.registry.pooled, join_pool),
  refl,
  refl,
  refl,
  refl,
)

-- A capacity is positive, and in 32 bits if the setting is.
pub public_match_capacity_bounds :
    (settings : Settings) (config : String)
    → settings.match_max_participants < 2147483647
    → (pos 1 ≤ℤ public_match_capacity settings config)
      × (pos_part (public_match_capacity settings config) < 2147483647)
unfolding public_match_capacity
public_match_capacity_bounds settings config h =
    ground (arith, to_int32_small settings.match_max_participants)
