-- ===== src/Stun/Cases.antt =====
-- stun.go: the requests that are answered, and how long an answer is.
use super_mario_bros_wonder.Base.{
  ℕ, zero, suc, true, ◌||◌, Option, none, some, List, [], ◌∷◌, ◌+◌, ◌*◌, ◌/◌, ◌%◌, ◌≤◌, ◌≡◌, ◌≢◌,
  refl, sym, ap, ◌∙◌, arith, inl, inr, pos, ltb_ℤ, Bool-cases, Option-cases, length, length-append,
  drop,
}
use super_mario_bros_wonder.Bytes.{Bytes, uint16, put_uint16, UdpAddr, to16}
use super_mario_bros_wonder.Bytes.Words.{to4-length}
use super_mario_bros_wonder.Stun.{
  Attributes, refused, out_of_fuel, unknown_kinds, attribute_kind, scan_attributes, error_420,
  put_kinds, mapped_address, error_response, address_family, xor_bytes, answer, binding_request,
  stun_binding_response,
}
use super_mario_bros_wonder.Stun.Scan.{stops, refuses, goes_on, round, size_at, next_at}
use super_mario_bros_wonder.Stun.Written.{Attribute, write_attributes}
use super_mario_bros_wonder.Stun.Answer.{signed, finish_response_lem}

-- An attribute that the loop passes adds one kind at most.
kind_count :
    (crc : Bytes → ℕ) (request : Bytes) (p kind size : ℕ) (u next : List ℕ)
    → attribute_kind crc request p kind size u ≡ some next
    → length next ≤ length u + 1
unfolding attribute_kind
kind_count crc request p kind size u next e = ground (arith, length-append u (kind ∷ []))

-- The kinds that the loop collects fit in the request.
unknown_same : (u ks : List ℕ) → unknown_kinds u ≡ unknown_kinds ks → u ≡ ks
unknown_same u ks e = ground arith

out_of_fuel_not :
    (ks : List ℕ) (crc : Bytes → ℕ) (request : Bytes) (p : ℕ) (u : List ℕ)
    → scan_attributes zero crc request p u ≢ unknown_kinds ks
unfolding scan_attributes
out_of_fuel_not ks crc request p u e = ground arith

refused_not : (ks : List ℕ) → refused ≢ unknown_kinds ks
refused_not ks e = ground arith

pub scan_count :
    (n : ℕ) (crc : Bytes → ℕ) (request : Bytes) (p : ℕ) (u ks : List ℕ)
    → 4 * length u + 20 ≤ p
    → p ≤ (length request + 3) / 4 * 4
    → scan_attributes n crc request p u ≡ unknown_kinds ks
    → 4 * length ks + 20 ≤ (length request + 3) / 4 * 4
scan_count zero crc request p u ks h k e = absurd (out_of_fuel_not ks crc request p u e)
scan_count (suc n) crc request p u ks h k e = elim (round crc request p u) [
  | stops f ↦ let g = unknown_same u ks (sym (f n) ∙ e) in omega (arith, ap length g)
  | refuses f ↦ absurd (refused_not ks (sym (f n) ∙ e))
  | goes_on next o b f ↦
      scan_count n crc request (next_at request p) next ks
        (omega
          (arith, kind_count crc request p (uint16 (drop p request)) (size_at request p) u next o))
        (omega arith) (sym (f n) ∙ e)
]

abbrev pub attribute_of : ℕ → Bytes → Attribute
attribute_of kind value = record { kind = kind; value = value }

abbrev pub mapped_attributes : Bytes → List Attribute
mapped_attributes mapped = attribute_of 0x0020 mapped ∷ []

abbrev pub error_attributes : List ℕ → List Attribute
error_attributes ks = attribute_of 9 error_420 ∷ attribute_of 10 (put_kinds ks) ∷ []

-- How an answer comes about.
pub data Answered (crc : Bytes → ℕ) (request : Bytes) (remote : Option UdpAddr) (response : Bytes)
    : Type 0 where
  mapped_answer :
      (mapped : Bytes)
      → scan_attributes (length request) crc request 20 [] ≡ unknown_kinds []
      → mapped_address request remote ≡ some mapped
      → response ≡ signed crc 0x0101 request (mapped_attributes mapped)
      → Answered crc request remote response
  error_answer :
      (k : ℕ) (ks : List ℕ)
      → scan_attributes (length request) crc request 20 [] ≡ unknown_kinds (k ∷ ks)
      → response ≡ signed crc 0x0111 request (error_attributes (k ∷ ks))
      → Answered crc request remote response

pub binding_request-bounds :
    (request : Bytes)
    → binding_request request ≡ true
    → (20 ≤ length request) × (length request ≤ 1500) × (length request % 4 ≡ 0)
unfolding binding_request
binding_request-bounds request h = ground arith

some_same : (a b : Bytes) → some a ≡ some b → a ≡ b
some_same a b e = ground arith

answer_cases :
    (crc : Bytes → ℕ) (request : Bytes) (remote : Option UdpAddr) (response : Bytes)
    (a : Attributes)
    → scan_attributes (length request) crc request 20 [] ≡ a
    → 20 ≤ length request
    → answer crc request remote a ≡ some response
    → Answered crc request remote response
unfolding answer error_response write_attributes
answer_cases crc request remote response refused s h e = absurd (ground arith)
answer_cases crc request remote response out_of_fuel s h e = absurd (ground arith)
answer_cases crc request remote response (unknown_kinds []) s h e =
    elim (Option-cases (mapped_address request remote)) [
      | inl m ↦ let f = rw (m, answer) at e in absurd (ground arith)
      | inr (mapped, m) ↦ mapped_answer mapped s m (
          sym (some_same _ _ (rw (m, answer) at e))
          ∙ finish_response_lem crc 0x0101 request (mapped_attributes mapped) h)
    ]
answer_cases crc request remote response (unknown_kinds (k ∷ ks)) s h e =
    error_answer k ks s
      (sym (some_same _ _ e) ∙ finish_response_lem crc 0x0111 request (error_attributes (k ∷ ks)) h)

pub Answered-cases :
    (crc : Bytes → ℕ) (request : Bytes) (remote : Option UdpAddr) (response : Bytes)
    → stun_binding_response crc request remote ≡ some response
    → (binding_request request ≡ true) × Answered crc request remote response
unfolding stun_binding_response
Answered-cases crc request remote response e = elim (Bool-cases (binding_request request)) [
  | inl g ↦ (
    g,
    answer_cases crc request remote response _ refl (binding_request-bounds request g).0
        (rw g at e),
  )
  | inr g ↦ let f = rw g at e in absurd (ground arith)
]

pub length-xor_bytes : (ip mask : Bytes) → length (xor_bytes ip mask) ≡ length ip
unfolding xor_bytes
length-xor_bytes [] mask = refl
length-xor_bytes (v ∷ ip) [] = omega (arith, length-xor_bytes ip [])
length-xor_bytes (v ∷ ip) (m ∷ mask) = omega (arith, length-xor_bytes ip mask)

pub length-put_kinds : (ks : List ℕ) → length (put_kinds ks) ≡ 2 * length ks
unfolding put_kinds put_uint16
length-put_kinds [] = omega arith
length-put_kinds (k ∷ ks) = omega (arith, length-put_kinds ks)

to16-length : (ip v : Bytes) → to16 ip ≡ some v → length v ≡ 16
unfolding to16
to16-length ip v e = ground arith

pub address_family-length :
    (address : Bytes) (family : ℕ) (ip : Bytes)
    → address_family address ≡ some (family, ip)
    → length ip ≤ 16
unfolding address_family
address_family-length address family ip e =
    ground (arith, to4-length address ip, to16-length address ip)

pub mapped_address-length :
    (request : Bytes) (remote : Option UdpAddr) (mapped : Bytes)
    → mapped_address request remote ≡ some mapped
    → length mapped ≤ 20
unfolding mapped_address put_uint16
mapped_address-length request none mapped e = absurd (ground arith)
mapped_address-length request (some remote) mapped e =
    elim (Bool-cases (ltb_ℤ remote.port (pos 1) || ltb_ℤ (pos 65535) remote.port)) [
      | inl g ↦ let f = rw g at e in absurd (ground arith)
      | inr g ↦ elim (Option-cases (address_family remote.ip)) [
        | inl m ↦ let f = rw (g, m) at e in absurd (ground arith)
        | inr ((family, ip), m) ↦
            let f = rw (g, m) at e in
            omega (
              arith,
              ap length (some_same _ _ f),
              length-xor_bytes ip (drop 4 request),
              address_family-length remote.ip family ip m,
            )
      ]
    ]
