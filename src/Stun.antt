-- ===== src/Stun.antt =====
-- stun.go: stunBindingResponse, as a function of the request and the address it came from. The
-- checksum is hash/crc32's, a parameter. `none` is the nil that is not sent.
pub mod Scan
pub mod Written
pub mod Answer
pub mod Cases
pub mod Mapped
pub mod Correct
pub mod Requests
use Prim.Native.Nat.{bit_xor}
use super_mario_bros_wonder.Base.{
  ℕ, zero, suc, ℤ, pos, Bool, not, ◌&&◌, ◌||◌, Option, none, some, List, [], ◌∷◌, ◌++◌, ◌+◌, ◌-◌,
  ◌*◌, ◌/◌, ◌%◌, if◌then◌else◌, ltb, eqb, ltb_ℤ, pos_part, length, take, drop,
}
use super_mario_bros_wonder.Bytes.{
  Bytes, uint16, uint32, put_uint16, put_uint32, set_uint16, to4, to16, UdpAddr,
}

-- The checks on the length and the header.
unfoldable pub binding_request : Bytes → Bool
binding_request request =
    not (ltb (length request) 20)
    && not (ltb 1500 (length request))
    && eqb (uint16 request) 1
    && eqb (uint32 (drop 4 request)) 0x2112a442
    && eqb (uint16 (drop 2 request)) (length request - 20)
    && eqb (length request % 4) 0

-- What the loop over the attributes comes to: nil, or the kinds it does not know.
pub data Attributes : Type 0 where
  refused out_of_fuel : Attributes
  unknown_kinds : List ℕ → Attributes

-- The switch on the kind of the attribute at `p`.
unfoldable pub attribute_kind : (Bytes → ℕ) → Bytes → ℕ → ℕ → ℕ → List ℕ → Option (List ℕ)
attribute_kind crc request p kind size unknown =
    if eqb kind 0x8028
    then if eqb size 4
        && eqb (p + 4 + size) (length request)
        && eqb (uint32 (drop (p + 4) request)) (bit_xor (crc (take p request)) 0x5354554e)
      then some unknown
      else none
    else if eqb kind 0x8022
    then some unknown
    else if eqb kind 8 || eqb kind 0x1c
    then none
    else if ltb kind 0x8000
    then some (unknown ++ (kind ∷ []))
    else some unknown

-- The loop from `p`; `n &^ 3` is written by division.
unfoldable pub scan_attributes : ℕ → (Bytes → ℕ) → Bytes → ℕ → List ℕ → Attributes
scan_attributes zero crc request p unknown = out_of_fuel
scan_attributes (suc n) crc request p unknown =
    let kind = uint16 (drop p request) in
    let size = uint16 (drop (p + 2) request) in
    let end = p + 4 + size in
    if not (ltb p (length request))
    then unknown_kinds unknown
    else if ltb (length request) (p + 4)
    then refused
    else if ltb (length request) end || ltb (length request) (p + 4 + (size + 3) / 4 * 4)
    then refused
    else elim (attribute_kind crc request p kind size unknown) [
      | none ↦ refused
      | some next ↦ scan_attributes n crc request ((end + 3) / 4 * 4) next
    ]

-- The loop that pads with zeros; it runs three times at most.
unfoldable pub pad : ℕ → Bytes → Bytes
pad zero bytes = bytes
pad (suc n) bytes = if eqb (length bytes % 4) 0 then bytes else pad n (bytes ++ (0 ∷ []))

-- The closure that appends an attribute.
unfoldable pub attribute : Bytes → ℕ → Bytes → Bytes
attribute response kind value =
    pad 3 (response ++ (put_uint16 kind ++ (put_uint16 (length value) ++ value)))

-- 0, 0, 4, 20, "Unknown Attribute"
unfoldable pub error_420 : Bytes
error_420 =
    0 ∷ 0 ∷ 4 ∷ 20 ∷ 85 ∷ 110 ∷ 107 ∷ 110 ∷ 111 ∷ 119 ∷ 110 ∷ 32 ∷ 65 ∷ 116 ∷ 116 ∷ 114 ∷ 105 ∷ 98
    ∷ 117 ∷ 116 ∷ 101 ∷ []

unfoldable pub put_kinds : List ℕ → Bytes
put_kinds [] = []
put_kinds (k ∷ ks) = put_uint16 k ++ put_kinds ks

-- v ^ request[4+i], for each byte of the address.
unfoldable pub xor_bytes : Bytes → Bytes → Bytes
xor_bytes [] mask = []
xor_bytes (v ∷ ip) [] = v ∷ xor_bytes ip []
xor_bytes (v ∷ ip) (m ∷ mask) = bit_xor v m ∷ xor_bytes ip mask

-- The address in the family that it has.
unfoldable pub address_family : Bytes → Option (ℕ × Bytes)
address_family ip = elim (to4 ip) [
  | some v4 ↦ some (1, v4)
  | none ↦ elim (to16 ip) [ none ↦ none | some v6 ↦ some (2, v6) ]
]

unfoldable pub mapped_address : Bytes → Option UdpAddr → Option Bytes
mapped_address request none = none
mapped_address request (some remote) =
    if ltb_ℤ remote.port (pos 1) || ltb_ℤ (pos 65535) remote.port
    then none
    else elim (address_family remote.ip) [
      | none ↦ none
      | some (family, ip) ↦ some (
          0 ∷ family ∷ put_uint16 (bit_xor (pos_part remote.port) 0x2112)
          ++ xor_bytes ip (drop 4 request))
    ]

-- The first twenty bytes, with the transaction of the request.
unfoldable pub response_header : ℕ → Bytes → Bytes
response_header kind request = put_uint16 kind ++ (0 ∷ 0 ∷ take 16 (drop 4 request))

unfoldable pub error_response : Bytes → List ℕ → Bytes
error_response request unknown =
    attribute (attribute (response_header 0x0111 request) 9 error_420) 10 (put_kinds unknown)

-- The length, which counts the fingerprint, and the fingerprint.
unfoldable pub finish_response : (Bytes → ℕ) → Bytes → Bytes
finish_response crc response =
    let counted = set_uint16 2 (length response - 20 + 8) response in
    attribute counted 0x8028 (put_uint32 (bit_xor (crc counted) 0x5354554e))

unfoldable pub answer : (Bytes → ℕ) → Bytes → Option UdpAddr → Attributes → Option Bytes
answer crc request remote (unknown_kinds []) = elim (mapped_address request remote) [
  | none ↦ none
  | some mapped ↦
      some (finish_response crc (attribute (response_header 0x0101 request) 0x0020 mapped))
]
answer crc request remote (unknown_kinds (k ∷ ks)) =
    some (finish_response crc (error_response request (k ∷ ks)))
answer crc request remote refused = none
answer crc request remote out_of_fuel = none

-- A round of the loop moves on by at least four bytes, so the length is fuel enough.
unfoldable pub stun_binding_response : (Bytes → ℕ) → Bytes → Option UdpAddr → Option Bytes
stun_binding_response crc request remote =
    if binding_request request
    then answer crc request remote (scan_attributes (length request) crc request 20 [])
    else none
