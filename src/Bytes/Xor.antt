-- ===== src/Bytes/Xor.antt =====
-- The exclusive or of numbers, by their binary digits.
use Prim.Native.Nat.{bit_xor, bit_xor-bitwise, digits, differ}
use super_mario_bros_wonder.Base.{
  ℕ, zero, suc, ◌^◌, ◌+◌, ◌*◌, ◌/◌, ◌%◌, ◌≤◌, ◌<◌, ◌≡◌, refl, ap, arith,
}

abbrev xor_digits : ℕ → ℕ → ℕ → ℕ
xor_digits n a b = digits (λ b. b) differ n a b

enough_digits : (n m a b : ℕ) → a ≤ n → a ≤ m → xor_digits n a b ≡ xor_digits m a b
enough_digits zero zero a b p q = refl
enough_digits zero (suc m) zero b p q = refl
enough_digits zero (suc m) (suc a) b p q = absurd (omega arith)
enough_digits (suc n) zero zero b p q = refl
enough_digits (suc n) zero (suc a) b p q = absurd (omega arith)
enough_digits (suc n) (suc m) zero b p q = refl
enough_digits (suc n) (suc m) (suc a) b p q =
    omega (arith, enough_digits n m (suc a / 2) (b / 2) (omega arith) (omega arith))

zero-differ : (b : ℕ) → differ 0 b ≡ b
zero-differ b = refl

-- The lowest digit, and the rest.
bit_xor_step : (a b : ℕ) → bit_xor a b ≡ bit_xor (a / 2) (b / 2) * 2 + differ (a % 2) (b % 2)
bit_xor_step zero b =
    omega (arith, bit_xor-bitwise 0 b, bit_xor-bitwise 0 (b / 2), zero-differ (b % 2))
bit_xor_step (suc a) b = omega (
  arith,
  bit_xor-bitwise (suc a) b,
  bit_xor-bitwise (suc a / 2) (b / 2),
  enough_digits a (suc a / 2) (suc a / 2) (b / 2) (omega arith) (omega arith),
)

-- A property of two digits, shown for each pair.
by_digits {ℓ} :
    (P : ℕ → ℕ → Type ℓ) → P 0 0 → P 0 1 → P 1 0 → P 1 1 → (x y : ℕ) → x < 2 → y < 2 → P x y
by_digits P a b c d zero zero h k = a
by_digits P a b c d zero (suc zero) h k = b
by_digits P a b c d (suc zero) zero h k = c
by_digits P a b c d (suc zero) (suc zero) h k = d
by_digits P a b c d (suc (suc x)) y h k = absurd (omega arith)
by_digits P a b c d zero (suc (suc y)) h k = absurd (omega arith)
by_digits P a b c d (suc zero) (suc (suc y)) h k = absurd (omega arith)

differ-differ : (x y : ℕ) → x < 2 → y < 2 → differ (differ x y) y ≡ x
differ-differ = by_digits (λ x y. differ (differ x y) y ≡ x) refl refl refl refl

differ_bound : (x y : ℕ) → x < 2 → y < 2 → differ x y < 2
differ_bound =
    by_digits (λ x y. differ x y < 2) (omega arith) (omega arith) (omega arith) (omega arith)

half : (a b : ℕ) → bit_xor a b / 2 ≡ bit_xor (a / 2) (b / 2)
half a b = omega (arith, bit_xor_step a b, differ_bound (a % 2) (b % 2) (omega arith) (omega arith))

last_digit : (a b : ℕ) → bit_xor a b % 2 ≡ differ (a % 2) (b % 2)
last_digit a b =
    omega (arith, bit_xor_step a b, differ_bound (a % 2) (b % 2) (omega arith) (omega arith))

cancel_digits : (n a b : ℕ) → a ≤ n → b ≤ n → bit_xor (bit_xor a b) b ≡ a
cancel_digits zero zero zero h k = refl
cancel_digits zero (suc a) b h k = absurd (omega arith)
cancel_digits zero zero (suc b) h k = absurd (omega arith)
cancel_digits (suc n) a b h k = omega (
  arith,
  bit_xor_step (bit_xor a b) b,
  ap (λ x. bit_xor x (b / 2)) (half a b),
  ap (λ x. differ x (b % 2)) (last_digit a b),
  cancel_digits n (a / 2) (b / 2) (omega arith) (omega arith),
  differ-differ (a % 2) (b % 2) (omega arith) (omega arith),
)

pub bit_xor_cancel : (a b : ℕ) → bit_xor (bit_xor a b) b ≡ a
bit_xor_cancel a b = cancel_digits (a + b) a b (omega arith) (omega arith)

pub bit_xor_bound : (n a b : ℕ) → a < 2 ^ n → b < 2 ^ n → bit_xor a b < 2 ^ n
bit_xor_bound zero zero zero h k = omega (arith, bit_xor-bitwise 0 0)
bit_xor_bound zero (suc a) b h k = absurd (omega arith)
bit_xor_bound zero zero (suc b) h k = absurd (omega arith)
bit_xor_bound (suc n) a b h k = omega (
  arith,
  half a b,
  last_digit a b,
  differ_bound (a % 2) (b % 2) (omega arith) (omega arith),
  bit_xor_bound n (a / 2) (b / 2) (omega arith) (omega arith),
)
