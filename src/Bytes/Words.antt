-- ===== src/Bytes/Words.antt =====
-- Words that are written and read again.
use super_mario_bros_wonder.Base.{
  some, ℕ, suc, List, [], ◌∷◌, ◌++◌, ◌+◌, ◌-◌, ◌<◌, ◌≤◌, zero, ◌≡◌, refl, ap, ◌∙◌, arith, length,
  take, drop,
}
use super_mario_bros_wonder.Bytes.{Bytes, uint16, uint32, put_uint16, put_uint32, to4}

pub uint16-put_uint16 : (n : ℕ) (rest : Bytes) → n < 65536 → uint16 (put_uint16 n ++ rest) ≡ n
unfolding uint16 put_uint16
uint16-put_uint16 n rest h = omega arith

pub uint32-put_uint32 : (n : ℕ) (rest : Bytes) → n < 4294967296 → uint32 (put_uint32 n ++ rest) ≡ n
unfolding uint32 put_uint32
uint32-put_uint32 n rest h = omega arith

module _ {ℓ} {A : Type ℓ} where
  pub drop-append : (xs ys : List A) → drop (length xs) (xs ++ ys) ≡ ys
  drop-append [] ys = refl
  drop-append (x ∷ xs) ys = drop-append xs ys

  pub take-append : (xs ys : List A) → take (length xs) (xs ++ ys) ≡ xs
  take-append [] ys = refl
  take-append (x ∷ xs) ys = ap (λ l. x ∷ l) (take-append xs ys)

  drop_same : (n m : ℕ) (xs : List A) → n ≡ m → drop n xs ≡ drop m xs
  drop_same n m xs e = ap (λ k. drop k xs) e

  pub drop-add : (n m : ℕ) (xs : List A) → drop (n + m) xs ≡ drop m (drop n xs)
  drop-add zero m xs = drop_same (0 + m) m xs (omega arith)
  drop-add (suc n) zero [] = drop_same (suc n + 0) (suc n) [] (omega arith)
  drop-add (suc n) (suc m) [] = drop_same (suc n + suc m) (suc (n + suc m)) [] (omega arith)
  drop-add (suc n) m (x ∷ xs) =
      drop_same (suc n + m) (suc (n + m)) (x ∷ xs) (omega arith) ∙ drop-add n m xs

  pub length-drop : (n : ℕ) (xs : List A) → length (drop n xs) ≡ length xs - n
  length-drop zero xs = omega arith
  length-drop (suc n) [] = omega arith
  length-drop (suc n) (x ∷ xs) = omega (arith, length-drop n xs)

  pub length-take : (n : ℕ) (xs : List A) → n ≤ length xs → length (take n xs) ≡ n
  length-take zero xs h = refl
  length-take (suc n) [] h = absurd (omega arith)
  length-take (suc n) (x ∷ xs) h = omega (arith, length-take n xs (omega arith))

pub to4-length : (ip v : Bytes) → to4 ip ≡ some v → length v ≡ 4
unfolding to4
to4-length ip v e = ground (arith, length-drop 12 ip)
