-- ===== src/Stun/Answer.antt =====
-- stun.go: what an answer is made of.
use super_mario_bros_wonder.Base.{
  ℕ, suc, List, [], ◌∷◌, ◌++◌, ◌+◌, ◌-◌, ◌%◌, ◌<◌, ◌≤◌, ◌^◌, ◌≡◌, refl, sym, ap, ◌∙◌, arith, length,
  length-append, append_assoc, take, drop, All,
}
use super_mario_bros_wonder.Bytes.{Bytes, put_uint16, set_uint16}
use super_mario_bros_wonder.Bytes.Words.{length-drop, length-take}
use super_mario_bros_wonder.Stun.{unknown_kinds, scan_attributes, response_header, finish_response}
use super_mario_bros_wonder.Stun.Scan.{added, length-added, attribute_lem, scan_fuel}
use super_mario_bros_wonder.Stun.Written.{
  Attribute, Ordinary, write_attributes, write_attributes_lem, encode, required_kinds, scan_written,
  scan_fingerprint, fingerprint, length-fingerprint,
}

-- The header with its length, once the fingerprint is counted.
unfoldable pub counted_header : ℕ → ℕ → Bytes → Bytes
counted_header kind n request = put_uint16 kind ++ (put_uint16 n ++ take 16 (drop 4 request))

pub length-counted_header :
    (kind n : ℕ) (request : Bytes)
    → 20 ≤ length request
    → length (counted_header kind n request) ≡ 20
unfolding counted_header put_uint16
length-counted_header kind n request h = omega (
  arith,
  length-take 16 (drop 4 request) (omega (arith, length-drop 4 request)),
  length-drop 4 request,
)

length-response_header :
    (kind : ℕ) (request : Bytes) → 20 ≤ length request → length (response_header kind request) ≡ 20
unfolding response_header put_uint16
length-response_header kind request h =
    omega (arith, length-take 16 (drop 4 request) (omega (arith, length-drop 4 request)))

set_length :
    (kind n : ℕ) (request rest : Bytes)
    → set_uint16 2 n (response_header kind request ++ rest) ≡ counted_header kind n request ++ rest
unfolding set_uint16 response_header counted_header put_uint16
set_length kind n request rest = refl

pub length-encode : (attributes : List Attribute) → length (encode attributes) % 4 ≡ 0
unfolding encode
length-encode [] = refl
length-encode (a ∷ attributes) = omega (
  arith,
  length-append (added a.kind a.value) (encode attributes),
  length-added a.kind a.value,
  length-encode attributes,
)

-- An answer with its attributes, its length and its fingerprint.
abbrev pub signed : (Bytes → ℕ) → ℕ → Bytes → List Attribute → Bytes
signed crc kind request attributes =
    let counted =
      counted_header kind (length (encode attributes) + 8) request ++ encode attributes in
    counted ++ added 0x8028 (fingerprint crc counted)

pub finish_response_lem :
    (crc : Bytes → ℕ) (kind : ℕ) (request : Bytes) (attributes : List Attribute)
    → 20 ≤ length request
    → finish_response crc (write_attributes (response_header kind request) attributes)
      ≡ signed crc kind request attributes
unfolding finish_response
finish_response_lem crc kind request attributes h =
    let header = response_header kind request in
    let body = encode attributes in
    let n = length (header ++ body) - 20 + 8 in
    let n_lem : n ≡ length body + 8 =
      omega (arith, length-append header body, length-response_header kind request h) in
    let counted = counted_header kind (length body + 8) request ++ body in
    let set : set_uint16 2 n (header ++ body) ≡ counted =
      ap (λ k. set_uint16 2 k (header ++ body)) n_lem
      ∙ set_length kind (length body + 8) request body in
    rw
      (
        write_attributes_lem header attributes
            (omega (arith, length-response_header kind request h)),
        set,
      )
      (attribute_lem counted 0x8028 (fingerprint crc counted) (
        omega (
          arith,
          length-append (counted_header kind (length body + 8) request) body,
          length-counted_header kind (length body + 8) request h,
          length-encode attributes,
        )))

pub length-signed :
    (crc : Bytes → ℕ) (kind : ℕ) (request : Bytes) (attributes : List Attribute)
    → 20 ≤ length request
    → length (signed crc kind request attributes) ≡ length (encode attributes) + 28
length-signed crc kind request attributes h =
    let header = counted_header kind (length (encode attributes) + 8) request in
    let counted = header ++ encode attributes in
    omega (
      arith,
      length-append counted (added 0x8028 (fingerprint crc counted)),
      length-append header (encode attributes),
      length-counted_header kind (length (encode attributes) + 8) request h,
      length-added 0x8028 (fingerprint crc counted),
      length-fingerprint crc counted,
    )

pub scan-signed :
    (crc : Bytes → ℕ) (kind : ℕ) (request : Bytes) (attributes : List Attribute)
    → ((b : Bytes) → crc b < 2 ^ 32)
    → 20 ≤ length request
    → All Ordinary attributes
    → scan_attributes
        (length (signed crc kind request attributes))
        crc
        (signed crc kind request attributes)
        20
        []
      ≡ unknown_kinds (required_kinds attributes)
scan-signed crc kind request attributes c h o =
    let response = signed crc kind request attributes in
    let header = counted_header kind (length (encode attributes) + 8) request in
    let counted = header ++ encode attributes in
    let tail = added 0x8028 (fingerprint crc counted) in
    let long = length-signed crc kind request attributes h in
    let start = length-counted_header kind (length (encode attributes) + 8) request h in
    let n = suc (suc (length response)) in
    let fuel =
      scan_fuel (length response) (length attributes + n) crc response 20 []
        (omega (arith, long), omega (arith, long)) (omega arith, omega arith) in
    fuel.0
    ∙ ap (λ p. scan_attributes (length attributes + n) crc response p []) (sym start)
    ∙ ap (λ r. scan_attributes (length attributes + n) crc r (length header) [])
        (append_assoc header (encode attributes) tail)
    ∙ scan_written attributes n crc header tail [] (omega (arith, start)) o
    ∙ ap (λ r. scan_attributes n crc r (length counted) (required_kinds attributes))
        (sym (append_assoc header (encode attributes) tail))
    ∙ scan_fingerprint (length response) crc counted (required_kinds attributes) (c counted)
        (omega (arith, length-append header (encode attributes), start, length-encode attributes))
