-- ===== src/Stun/Scan.antt =====
-- stun.go: the loop over the attributes of a request, and the attributes that are written.
use super_mario_bros_wonder.Base.{
  leb→le, ℕ, zero, suc, Bool, true, false, ◌||◌, Option, none, some, List, [], ◌∷◌, ◌++◌, ◌+◌, ◌-◌,
  ◌*◌, ◌/◌, ◌%◌, ◌<◌, ◌≤◌, ◌≡◌, ◌≢◌, refl, sym, ap, ◌∙◌, subst, arith, inl, inr, if◌then◌else◌, ltb,
  leb, eqb, eqb_iff, Bool-cases, Option-cases, length, length-append, append-nil, append_assoc,
  drop,
}
use super_mario_bros_wonder.Bytes.{Bytes, uint16, put_uint16}
use super_mario_bros_wonder.Bytes.Words.{uint16-put_uint16, drop-append, drop-add}
use super_mario_bros_wonder.Stun.{
  Attributes, refused, out_of_fuel, unknown_kinds, attribute_kind, scan_attributes, pad, attribute,
}

pub ltb-true : (a b : ℕ) → a < b → ltb a b ≡ true
ltb-true a b h = ground arith

pub ltb-false : (a b : ℕ) → b ≤ a → ltb a b ≡ false
ltb-false a b h = ground arith

leb-false : (a b : ℕ) → leb a b ≡ false → b < a
leb-false a b h = ground arith

pub eqb-false : (a b : ℕ) → a ≢ b → eqb a b ≡ false
eqb-false a b h = ground arith

-- What follows a round of the loop.
abbrev pub continue : ℕ → (Bytes → ℕ) → Bytes → ℕ → Option (List ℕ) → Attributes
continue n crc request q none = refused
continue n crc request q (some next) = scan_attributes n crc request q next

-- A round at an attribute that lies within the request.
scan_here :
    (n : ℕ) (crc : Bytes → ℕ) (request : Bytes) (p : ℕ) (u : List ℕ)
    → p + 4 + (uint16 (drop (p + 2) request) + 3) / 4 * 4 ≤ length request
    → scan_attributes (suc n) crc request p u
      ≡ continue n crc request
          ((p + 4 + uint16 (drop (p + 2) request) + 3) / 4 * 4)
          (attribute_kind crc request p (uint16 (drop p request)) (uint16 (drop (p + 2) request)) u)
unfolding scan_attributes
scan_here n crc request p u h =
    rw
      (
        ltb-true p (length request) (omega arith),
        ltb-false (length request) (p + 4) (omega arith),
        ltb-false (length request) (p + 4 + uint16 (drop (p + 2) request)) (omega arith),
        ltb-false (length request) (p + 4 + (uint16 (drop (p + 2) request) + 3) / 4 * 4) h,
      )
      (elim (Option-cases (
        attribute_kind crc request p (uint16 (drop p request)) (uint16 (drop (p + 2) request)) u)) [
          | inl g ↦ rw g refl
          | inr (next, g) ↦ rw g refl
        ])

abbrev RoundAt : ℕ → (Bytes → ℕ) → Bytes → ℕ → List ℕ → ℕ → ℕ → Type 0
RoundAt n crc request p u kind size =
    p + 4 + (size + 3) / 4 * 4 ≤ length request
    → scan_attributes (suc n) crc request p u
      ≡ continue n crc request ((p + 4 + size + 3) / 4 * 4)
          (attribute_kind crc request p kind size u)

scan_round :
    (n : ℕ) (crc : Bytes → ℕ) (request : Bytes) (p : ℕ) (u : List ℕ) (kind size : ℕ)
    → uint16 (drop p request) ≡ kind
    → uint16 (drop (p + 2) request) ≡ size
    → RoundAt n crc request p u kind size
scan_round n crc request p u kind size e f =
    subst (λ k. RoundAt n crc request p u k size) e
      (subst (RoundAt n crc request p u (uint16 (drop p request))) f (scan_here n crc request p u))

-- At the end the loop stops.
pub scan_end :
    (n : ℕ) (crc : Bytes → ℕ) (request : Bytes) (u : List ℕ)
    → scan_attributes (suc n) crc request (length request) u ≡ unknown_kinds u
unfolding scan_attributes
scan_end n crc request u = rw (ltb-false (length request) (length request) (omega arith)) refl

-- Two amounts of fuel that are enough give the same, and not that it ran out.
abbrev pub Settled : Attributes → Attributes → Type 0
Settled a b = (a ≡ b) × (a ≢ out_of_fuel)

abbrev pub Enough : ℕ → Bytes → ℕ → Type 0
Enough n request p = (0 < n) × (length request < p + n)

abbrev pub size_at : Bytes → ℕ → ℕ
size_at request p = uint16 (drop (p + 2) request)

abbrev pub next_at : Bytes → ℕ → ℕ
next_at request p = (p + 4 + size_at request p + 3) / 4 * 4

-- The ways in which a round goes, with any fuel.
pub data Round (crc : Bytes → ℕ) (request : Bytes) (p : ℕ) (u : List ℕ) : Type 0 where
  stops :
      ((n : ℕ) → scan_attributes (suc n) crc request p u ≡ unknown_kinds u) → Round crc request p u
  refuses : ((n : ℕ) → scan_attributes (suc n) crc request p u ≡ refused) → Round crc request p u
  goes_on :
      (next : List ℕ)
      → attribute_kind crc request p (uint16 (drop p request)) (size_at request p) u ≡ some next
      → p + 4 + (size_at request p + 3) / 4 * 4 ≤ length request
      → ((n : ℕ)
          → scan_attributes (suc n) crc request p u
            ≡ scan_attributes n crc request (next_at request p) next)
      → Round crc request p u

out_of_bounds :
    (b c : Bool) (rest : Attributes)
    → (if b then refused else if c || true then refused else rest) ≡ refused
out_of_bounds true c rest = refl
out_of_bounds false true rest = refl
out_of_bounds false false rest = refl

pub round : (crc : Bytes → ℕ) (request : Bytes) (p : ℕ) (u : List ℕ) → Round crc request p u
unfolding scan_attributes
round crc request p u = elim (Bool-cases (ltb p (length request))) [
  | inr e ↦ stops (λ n. rw e refl)
  | inl e ↦ elim (Bool-cases (leb (p + 4 + (size_at request p + 3) / 4 * 4) (length request))) [
    | inl g ↦
        elim (Option-cases
          (attribute_kind crc request p (uint16 (drop p request)) (size_at request p) u)) [
            | inl o ↦ refuses (λ n. scan_here n crc request p u (leb→le _ _ g) ∙ rw o refl)
            | inr (next, o) ↦
                goes_on next o (leb→le _ _ g)
                  (λ n. scan_here n crc request p u (leb→le _ _ g) ∙ rw o refl)
          ]
    | inr g ↦ refuses (λ n.
        rw
          (
            e,
            ltb-true (length request) (p + 4 + (size_at request p + 3) / 4 * 4)
                (omega (arith, leb-false _ _ g)),
          )
          (out_of_bounds (ltb (length request) (p + 4))
            (ltb (length request) (p + 4 + size_at request p))
            (continue n crc request (next_at request p) _)))
  ]
]

pub scan_fuel :
    (n m : ℕ) (crc : Bytes → ℕ) (request : Bytes) (p : ℕ) (u : List ℕ)
    → Enough n request p
    → Enough m request p
    → Settled (scan_attributes n crc request p u) (scan_attributes m crc request p u)
scan_fuel zero m crc request p u (h, h') k = absurd (omega arith)
scan_fuel (suc n) zero crc request p u h (k, k') = absurd (omega arith)
scan_fuel (suc n) (suc m) crc request p u (h, h') (k, k') = elim (round crc request p u) [
  | stops e ↦ rw (e n, e m) (refl, λ g. ground arith)
  | refuses e ↦ rw (e n, e m) (refl, λ g. ground arith)
  | goes_on next o b e ↦
      rw (e n, e m)
        (scan_fuel n m crc request (next_at request p) next (omega arith, omega arith)
          (omega arith, omega arith))
]

zeros : ℕ → Bytes
zeros zero = []
zeros (suc n) = 0 ∷ zeros n

length-zeros : (n : ℕ) → length (zeros n) ≡ n
unfolding zeros
length-zeros zero = refl
length-zeros (suc n) = omega (arith, length-zeros n)

-- The padding that a length is short of.
abbrev pub short : ℕ → ℕ
short n = (n + 3) / 4 * 4 - n

pad-zeros :
    (n k : ℕ) (bytes : Bytes) → short (length bytes) ≡ k → k ≤ n → pad n bytes ≡ bytes ++ zeros k
unfolding pad zeros
pad-zeros zero zero bytes e h = sym (append-nil bytes)
pad-zeros zero (suc k) bytes e h = absurd (omega arith)
pad-zeros (suc n) zero bytes e h =
    rw ((eqb_iff (length bytes % 4) 0).1 (omega arith)) (sym (append-nil bytes))
pad-zeros (suc n) (suc k) bytes e h =
    let more =
      pad-zeros n k (bytes ++ (0 ∷ [])) (omega (arith, length-append bytes (0 ∷ [])))
        (omega arith) in
    rw (eqb-false (length bytes % 4) 0 (λ g. absurd (omega arith)), more)
      (append_assoc bytes (0 ∷ []) (zeros k))

-- What an attribute adds.
unfoldable pub added : ℕ → Bytes → Bytes
unfolding zeros
added kind value =
    put_uint16 kind ++ (put_uint16 (length value) ++ (value ++ zeros (short (length value))))

pub attribute_lem :
    (response : Bytes) (kind : ℕ) (value : Bytes)
    → length response % 4 ≡ 0
    → attribute response kind value ≡ response ++ added kind value
unfolding attribute added put_uint16
attribute_lem response kind value h =
    let written = put_uint16 kind ++ (put_uint16 (length value) ++ value) in
    pad-zeros 3 (short (length value)) (response ++ written)
      (omega (arith, length-append response written)) (omega arith)
    ∙ append_assoc response written (zeros (short (length value)))

pub length-added :
    (kind : ℕ) (value : Bytes) → length (added kind value) ≡ 4 + (length value + 3) / 4 * 4
unfolding added put_uint16
length-added kind value =
    omega (
      arith,
      length-append value (zeros (short (length value))),
      length-zeros (short (length value)),
    )

pub length-attribute :
    (response : Bytes) (kind : ℕ) (value : Bytes)
    → length response % 4 ≡ 0
    → length (attribute response kind value) ≡ length response + 4 + (length value + 3) / 4 * 4
length-attribute response kind value h = omega (
  arith,
  ap length (attribute_lem response kind value h),
  length-append response (added kind value),
  length-added kind value,
)

drop_two :
    (kind : ℕ) (value rest : Bytes)
    → drop 2 (added kind value ++ rest)
      ≡ put_uint16 (length value) ++ ((value ++ zeros (short (length value))) ++ rest)
unfolding added put_uint16
drop_two kind value rest = refl

first_word :
    (kind : ℕ) (value rest : Bytes) → kind < 65536 → uint16 (added kind value ++ rest) ≡ kind
unfolding added put_uint16 uint16
first_word kind value rest h = omega arith

-- A round at an attribute that was written.
pub attribute_round :
    (n : ℕ) (crc : Bytes → ℕ) (before : Bytes) (kind : ℕ) (value rest : Bytes) (u : List ℕ)
    → kind < 65536
    → length value < 65536
    → scan_attributes (suc n) crc (before ++ (added kind value ++ rest)) (length before) u
      ≡ continue n crc
          (before ++ (added kind value ++ rest))
          ((length before + 4 + length value + 3) / 4 * 4)
          (attribute_kind crc
            (before ++ (added kind value ++ rest))
            (length before)
            kind
            (length value)
            u)
attribute_round n crc before kind value rest u h k =
    let whole = before ++ (added kind value ++ rest) in
    scan_round n crc whole (length before) u kind (length value)
      (ap uint16 (drop-append before (added kind value ++ rest)) ∙ first_word kind value rest h)
      (ap uint16 (
          drop-add (length before) 2 whole
          ∙ ap (drop 2) (drop-append before (added kind value ++ rest))
          ∙ drop_two kind value rest)
        ∙ uint16-put_uint16 (length value) ((value ++ zeros (short (length value))) ++ rest) k)
      (omega (
        arith,
        length-append before (added kind value ++ rest),
        length-append (added kind value) rest,
        length-added kind value,
      ))
