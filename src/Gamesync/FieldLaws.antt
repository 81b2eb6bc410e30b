-- ===== src/Gamesync/FieldLaws.antt =====
-- gamesync_store.go: setField, readField and the sum of an increment.
use super_mario_bros_wonder.Base.{
  String, ℤ, pos, negsuc, ◌≡◌, some, List, [], ◌∷◌, eq_refl, arith, ◌+ℤ◌, ◌≤ℤ◌, leb_ℤ, ◌&&◌, Bool,
  if◌then◌else◌, wrap64, to_int64, ok, err, out_of_range,
}
use super_mario_bros_wonder.Proto.{Value, Fields}
use super_mario_bros_wonder.Attributes.{get_field, get_field-put_field}
use super_mario_bros_wonder.Gamesync.{map_of}
use super_mario_bros_wonder.Gamesync.Documents.{or_no_fields, read_field, set_field}
use super_mario_bros_wonder.Gamesync.Transforms.{checked_sum, max_int64, min_int64}

-- A field that has been set at a path is read back at that path, however deep it lies and whatever
-- stood on the way. The path has a part.
pub read_field-set_field :
    (path : List String) (fields : Fields) (k : String) (v : Value)
    → read_field (some (set_field fields (k ∷ path) (some v))) (k ∷ path) ≡ some v
unfolding read_field set_field
read_field-set_field [] fields k v = rw (get_field-put_field fields k k v, eq_refl k)
read_field-set_field (l ∷ path) fields k v =
    rw (get_field-put_field fields k k _, eq_refl k)
      (read_field-set_field path (or_no_fields (map_of (get_field fields k))) l v)

wrap64_small : (a : ℤ) → min_int64 ≤ℤ a → a ≤ℤ max_int64 → wrap64 a ≡ a
unfolding wrap64 to_int64
wrap64_small (pos n) l h = ground arith
wrap64_small (negsuc n) l h = ground arith

abbrev pub in_int64 : ℤ → Bool
in_int64 a = leb_ℤ min_int64 a && leb_ℤ a max_int64

-- The sum of an increment is exact: it is answered if it is an int64, and refused as out of range
-- if it is not. Both numbers are int64.
pub checked_sum-eq :
    (a b : ℤ)
    → min_int64 ≤ℤ a
    → a ≤ℤ max_int64
    → min_int64 ≤ℤ b
    → b ≤ℤ max_int64
    → checked_sum a b ≡ (if in_int64 (a +ℤ b) then ok (a +ℤ b) else err out_of_range)
unfolding checked_sum
checked_sum-eq (pos m) (pos n) p q r s = ground (arith, wrap64_small (pos m +ℤ pos n))
checked_sum-eq (pos m) (negsuc n) p q r s = ground (arith, wrap64_small (pos m +ℤ negsuc n))
checked_sum-eq (negsuc m) (pos n) p q r s = ground (arith, wrap64_small (negsuc m +ℤ pos n))
checked_sum-eq (negsuc m) (negsuc n) p q r s = ground (arith, wrap64_small (negsuc m +ℤ negsuc n))
