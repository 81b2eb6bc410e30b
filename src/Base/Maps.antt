-- ===== src/Base/Maps.antt =====
-- Go's `map[string]V` as an association list. What ranges over a map in the source either sorts
-- the keys or does not depend on the order.
use Prim.Native.String.{String}
use mathlib.Core.Path.{◌≡◌, refl}
use mathlib.Core.Logic.{◌⊎◌, inl, inr, ◌≢◌}
use mathlib.Core.Option.{Option, none, some}
use mathlib.Core.List.{List, [], ◌∷◌}
use native.Mathlib.Omega.{arith}
use text.Mathlib.Text.{◌==◌}
use text.Mathlib.TextEquality.{eq_iff}
use text.Mathlib.TextPositions.{eq_refl}
use super_mario_bros_wonder.Base.Tests.{if◌then◌else◌, Bool-cases}

abbrev pub Dict {ℓ} : Type ℓ → Type ℓ
Dict V = List (String × V)

module _ {ℓ} {V : Type ℓ} where
  -- m[k], with a missing key as `none`
  unfoldable pub get : Dict V → String → Option V
  get [] k = none
  get ((j, v) ∷ m) k = if j == k then some v else get m k

  -- m[k] = v
  unfoldable pub put : Dict V → String → V → Dict V
  put [] k v = (k, v) ∷ []
  put ((j, w) ∷ m) k v = if j == k then (k, v) ∷ m else (j, w) ∷ put m k v

  -- delete(m, k)
  unfoldable pub delete : Dict V → String → Dict V
  delete [] k = []
  delete ((j, w) ∷ m) k = if j == k then delete m k else (j, w) ∷ delete m k

  pub get-put :
      (m : Dict V) (k j : String) (v : V) → get (put m k v) j ≡ (if k == j then some v else get m j)
  unfolding get put
  get-put [] k j v = refl
  get-put ((i, w) ∷ m) k j v = ground (arith, eq_iff k j, eq_iff i k, eq_iff i j, get-put m k j v)

  pub get-delete :
      (m : Dict V) (k j : String) → get (delete m k) j ≡ (if k == j then none else get m j)
  unfolding get delete
  get-delete [] k j = ground arith
  get-delete ((i, w) ∷ m) k j = ground (arith, eq_iff k j, eq_iff i k, eq_iff i j, get-delete m k j)

  pub get-put_self : (m : Dict V) (k : String) (v : V) → get (put m k v) k ≡ some v
  get-put_self m k v = rw (get-put m k k v, eq_refl k)

  pub get-put_ne : (m : Dict V) (k j : String) (v : V) → k ≢ j → get (put m k v) j ≡ get m j
  get-put_ne m k j v h = rw (get-put m k j v) (ground (arith, eq_iff k j))

  -- What is found after a write was written, or was there under another key.
  pub get-put-eq-some :
      (m : Dict V) (k j : String) {v w : V}
      → get (put m k v) j ≡ some w
      → ((k ≡ j) × (v ≡ w)) ⊎ ((k ≢ j) × (get m j ≡ some w))
  get-put-eq-some m k j {v} {w} h = elim (Bool-cases (k == j)) [
    | inl e ↦ inl ((eq_iff k j).0 e, let f : some v ≡ some w = rw (get-put m k j v, e) at h in cc)
    | inr e ↦ inr (λ p. cc ((eq_iff k j).1 p, e), rw (get-put m k j v, e) at h)
  ]

  pub get-delete_ne : (m : Dict V) (k j : String) → k ≢ j → get (delete m k) j ≡ get m j
  get-delete_ne m k j h = rw (get-delete m k j) (ground (arith, eq_iff k j))

  pub get-delete-eq-some :
      (m : Dict V) (k j : String) {w : V} → get (delete m k) j ≡ some w → get m j ≡ some w
  get-delete-eq-some m k j {w} h = elim (Bool-cases (k == j)) [
    | inl e ↦ cc (rw (get-delete m k j, e) at h)
    | inr e ↦ rw (get-delete m k j, e) at h
  ]

  abbrev pub keys : Dict V → List String
  keys [] = []
  keys ((k, v) ∷ m) = k ∷ keys m

pub ruleset dict_laws = (get-put, get-delete)
