-- ===== src/Base/Status.antt =====
-- gRPC status codes, and the result of a handler. The texts of the messages are left out.
use mathlib.Core.Path.{◌≡◌, refl}
use mathlib.Core.Logic.{◌⊎◌, inl, inr}
use mathlib.Core.Bool.{Bool, true, false}

pub data Code : Type 0 where
  invalid_argument not_found permission_denied unauthenticated : Code
  resource_exhausted failed_precondition out_of_range unimplemented internal unavailable : Code

pub data Result {ℓ} (A : Type ℓ) : Type ℓ where
  ok : A → Result A
  err : Code → Result A

pub Result-cases {ℓ} :
    {A : Type ℓ} (r : Result A) → ((a : A) × (r ≡ ok a)) ⊎ ((c : Code) × (r ≡ err c))
Result-cases (ok a) = inl (a, refl)
Result-cases (err c) = inr (c, refl)

-- `if bad { return status.Error(code, ...) }`
abbrev pub refuse_if : Bool → Code → Result (Unit {0})
refuse_if bad code = elim bad [ true ↦ err code | false ↦ ok tt ]

pub refuse_if-eq-ok : (bad : Bool) (c : Code) {u : Unit} → refuse_if bad c ≡ ok u → bad ≡ false
refuse_if-eq-ok true c h = cc
refuse_if-eq-ok false c h = refl

infixl 5 ◌>>=◌ ◌>>◌
abbrev pub ◌>>=◌ {ℓ κ} : {A : Type ℓ} {B : Type κ} → Result A → (A → Result B) → Result B
err code >>= next = err code
ok value >>= next = next value

-- A step that goes on has an answer, and so does what follows it.
pub >>=-eq-ok {ℓ κ} :
    {A : Type ℓ} {B : Type κ} (r : Result A) (next : A → Result B) {answer : B}
    → (r >>= next) ≡ ok answer
    → (value : A) × (r ≡ ok value) × (next value ≡ ok answer)
>>=-eq-ok (err code) next h = cc
>>=-eq-ok (ok value) next h = (value, refl, h)

-- The rest of a handler, after an error check.
abbrev pub ◌>>◌ {ℓ} : {A : Type ℓ} → Result (Unit {0}) → Result A → Result A
check >> rest = check >>= λ _. rest
