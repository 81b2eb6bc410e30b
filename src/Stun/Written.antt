-- ===== src/Stun/Written.antt =====
-- stun.go: attributes that are written one after the other, and what the loop reads of them.
use Prim.Native.Nat.{bit_xor}
use super_mario_bros_wonder.Base.{
  ℕ, suc, some, List, [], ◌∷◌, ◌++◌, ◌+◌, ◌*◌, ◌/◌, ◌%◌, ◌<◌, ◌^◌, ◌≡◌, ◌≢◌, refl, sym, ap, ◌∙◌,
  arith, inl, inr, ltb, eqb, eqb_iff, Bool-cases, length, length-append, append-nil, append_assoc,
  drop, keep, map, All,
}
use super_mario_bros_wonder.Bytes.{Bytes, uint32, put_uint16, put_uint32}
use super_mario_bros_wonder.Bytes.Words.{drop-append, take-append, drop-add}
use super_mario_bros_wonder.Bytes.Xor.{bit_xor_bound}
use super_mario_bros_wonder.Stun.{unknown_kinds, attribute_kind, scan_attributes, attribute}
use super_mario_bros_wonder.Stun.Scan.{
  added, length-added, length-attribute, attribute_lem, attribute_round, continue, eqb-false,
  scan_end, ltb-false,
}

pub record Attribute : Type 0 where
  pub kind : ℕ
  pub value : Bytes

unfoldable pub write_attributes : Bytes → List Attribute → Bytes
write_attributes response [] = response
write_attributes response (a ∷ attributes) =
    write_attributes (attribute response a.kind a.value) attributes

unfoldable pub encode : List Attribute → Bytes
encode [] = []
encode (a ∷ attributes) = added a.kind a.value ++ encode attributes

-- Neither a fingerprint nor a claim of integrity, and within the fields of its header.
abbrev pub Ordinary : Attribute → Type 0
Ordinary a =
    (a.kind < 65536) × (length a.value < 65536) × (a.kind ≢ 0x8028) × (a.kind ≢ 8) × (a.kind ≢ 0x1c)

-- The kinds that must be understood.
abbrev pub required_kinds : List Attribute → List ℕ
required_kinds attributes = keep (λ k. ltb k 0x8000) (map (λ (a : Attribute). a.kind) attributes)

pub write_attributes_lem :
    (response : Bytes) (attributes : List Attribute)
    → length response % 4 ≡ 0
    → write_attributes response attributes ≡ response ++ encode attributes
unfolding write_attributes encode
write_attributes_lem response [] h = sym (append-nil response)
write_attributes_lem response (a ∷ attributes) h =
    write_attributes_lem (attribute response a.kind a.value) attributes
      (omega (arith, length-attribute response a.kind a.value h))
    ∙ ap (λ r. r ++ encode attributes) (attribute_lem response a.kind a.value h)
    ∙ append_assoc response (added a.kind a.value) (encode attributes)

abbrev noted : ℕ → List ℕ
noted k = keep (λ k. ltb k 0x8000) (k ∷ [])

Ordinary-kind :
    (crc : Bytes → ℕ) (request : Bytes) (p : ℕ) (a : Attribute) (u : List ℕ)
    → Ordinary a
    → attribute_kind crc request p a.kind (length a.value) u ≡ some (u ++ noted a.kind)
unfolding attribute_kind
Ordinary-kind crc request p a u (h, k, f, m, s) =
    rw (eqb-false a.kind 0x8028 f, eqb-false a.kind 8 m, eqb-false a.kind 0x1c s)
      (elim (Bool-cases (eqb a.kind 0x8022)) [
        | inl e ↦
            rw (e, ltb-false a.kind 0x8000 (omega (arith, (eqb_iff a.kind 0x8022).0 e)))
              (ap some (sym (append-nil u)))
        | inr e ↦ rw e (elim (Bool-cases (ltb a.kind 0x8000)) [
          | inl g ↦ rw g refl
          | inr g ↦ rw g (ap some (sym (append-nil u)))
        ])
      ])

required_cons :
    (a : Attribute) (attributes : List Attribute)
    → required_kinds (a ∷ attributes) ≡ noted a.kind ++ required_kinds attributes
required_cons a attributes = elim (Bool-cases (ltb a.kind 0x8000)) [
  | inl e ↦ rw e refl
  | inr e ↦ rw e refl
]

scan_same :
    (n m : ℕ) (crc : Bytes → ℕ) (request request' : Bytes) (p p' : ℕ) (u u' : List ℕ)
    → n ≡ m
    → request ≡ request'
    → p ≡ p'
    → u ≡ u'
    → scan_attributes n crc request p u ≡ scan_attributes m crc request' p' u'
scan_same n m crc request request' p p' u u' a b c d = rw (a, b, c, d) refl

-- The loop reads the attributes and goes on after them.
pub scan_written :
    (attributes : List Attribute) (n : ℕ) (crc : Bytes → ℕ) (before rest : Bytes) (u : List ℕ)
    → length before % 4 ≡ 0
    → All Ordinary attributes
    → scan_attributes
        (length attributes + n)
        crc
        (before ++ (encode attributes ++ rest))
        (length before)
        u
      ≡ scan_attributes n crc
          (before ++ (encode attributes ++ rest))
          (length (before ++ encode attributes))
          (u ++ required_kinds attributes)
unfolding encode
scan_written [] n crc before rest u h o =
    scan_same (0 + n) n crc (before ++ rest) (before ++ rest) (length before)
      (length (before ++ [])) u (u ++ []) (omega arith) refl (sym (ap length (append-nil before)))
      (sym (append-nil u))
scan_written (a ∷ attributes) n crc before rest u h (o, os) =
    let new = added a.kind a.value in
    let after = encode attributes ++ rest in
    let whole = before ++ ((new ++ encode attributes) ++ rest) in
    let here = before ++ (new ++ after) in
    let later = (before ++ new) ++ after in
    let regroup : whole ≡ here =
      ap (λ r. before ++ r) (append_assoc new (encode attributes) rest) in
    let moved : here ≡ later = sym (append_assoc before new after) in
    let q = (length before + 4 + length a.value + 3) / 4 * 4 in
    let q_lem : q ≡ length (before ++ new) =
      omega (arith, length-append before new, length-added a.kind a.value) in
    scan_same _ (suc (length attributes + n)) crc whole here _ _ u u (omega arith) regroup refl refl
    ∙ attribute_round (length attributes + n) crc before a.kind a.value after u o.0 o.1
    ∙ ap (continue (length attributes + n) crc here q)
        (Ordinary-kind crc here (length before) a u o)
    ∙ scan_same _ _ crc here later q _ _ _ refl moved q_lem refl
    ∙ scan_written attributes n crc (before ++ new) rest (u ++ noted a.kind) (omega (arith, q_lem))
        os
    ∙ scan_same n n crc later whole _ _ _ _ refl (sym (regroup ∙ moved))
        (ap length (append_assoc before new (encode attributes)))
        (append_assoc u (noted a.kind) (required_kinds attributes)
          ∙ ap (λ l. u ++ l) (sym (required_cons a attributes)))

abbrev pub fingerprint : (Bytes → ℕ) → Bytes → Bytes
fingerprint crc before = put_uint32 (bit_xor (crc before) 0x5354554e)

pub length-fingerprint : (crc : Bytes → ℕ) (before : Bytes) → length (fingerprint crc before) ≡ 4
unfolding put_uint32
length-fingerprint crc before = refl

fingerprint_word :
    (n : ℕ) (rest : Bytes)
    → n < 4294967296
    → uint32 (drop 4 (added 0x8028 (put_uint32 n) ++ rest)) ≡ n
unfolding added put_uint16 put_uint32 uint32
fingerprint_word n rest h = omega arith

fingerprint_kind :
    (crc : Bytes → ℕ) (before : Bytes) (u : List ℕ)
    → crc before < 2 ^ 32
    → attribute_kind crc
        (before ++ (added 0x8028 (fingerprint crc before) ++ []))
        (length before)
        0x8028
        4
        u
      ≡ some u
unfolding attribute_kind
fingerprint_kind crc before u c =
    let new = added 0x8028 (fingerprint crc before) in
    let whole = before ++ (new ++ []) in
    let word : uint32 (drop (length before + 4) whole) ≡ bit_xor (crc before) 0x5354554e =
      ap uint32 (drop-add (length before) 4 whole ∙ ap (drop 4) (drop-append before (new ++ [])))
      ∙ fingerprint_word (bit_xor (crc before) 0x5354554e) []
          (bit_xor_bound 32 (crc before) 0x5354554e c (omega arith)) in
    let all : length before + 4 + 4 ≡ length whole = omega (
      arith,
      length-append before (new ++ []),
      length-append new [],
      length-added 0x8028 (fingerprint crc before),
      length-fingerprint crc before,
    ) in
    rw
      (
        (eqb_iff (length before + 4 + 4) (length whole)).1 all,
        word,
        take-append before (new ++ []),
        (eqb_iff (bit_xor (crc before) 0x5354554e) (bit_xor (crc before) 0x5354554e)).1 refl,
      )
      refl

pub scan_fingerprint :
    (n : ℕ) (crc : Bytes → ℕ) (before : Bytes) (u : List ℕ)
    → crc before < 2 ^ 32
    → length before % 4 ≡ 0
    → scan_attributes
        (suc (suc n))
        crc
        (before ++ added 0x8028 (fingerprint crc before))
        (length before)
        u
      ≡ unknown_kinds u
scan_fingerprint n crc before u c h =
    let fp = fingerprint crc before in
    let new = added 0x8028 fp in
    let whole = before ++ new in
    let whole' = before ++ (new ++ []) in
    let nil : whole ≡ whole' = ap (λ r. before ++ r) (sym (append-nil new)) in
    let q = (length before + 4 + length fp + 3) / 4 * 4 in
    let q_lem : q ≡ length whole' = omega (
      arith,
      ap length nil,
      length-append before new,
      length-added 0x8028 fp,
      length-fingerprint crc before,
    ) in
    scan_same _ _ crc whole whole' _ _ u u refl nil refl refl
    ∙ attribute_round (suc n) crc before 0x8028 fp [] u (omega arith)
        (omega (arith, length-fingerprint crc before))
    ∙ ap (continue (suc n) crc whole' q) (
        ap (λ k. attribute_kind crc whole' (length before) 0x8028 k u)
          (length-fingerprint crc before)
        ∙ fingerprint_kind crc before u c)
    ∙ scan_same _ _ crc whole' whole' q _ u u refl refl q_lem refl
    ∙ scan_end n crc whole' u
