-- ===== src/Examples/Datagrams.antt =====
-- The theorems on datagrams: a binding request from the loopback address, and probes of a NAT check.
use super_mario_bros_wonder.Base.{
  refl, ◌≡◌, ◌≢◌, ◌⊎◌, inl, arith, true, some, none, List, [], ◌∷◌, ◌++◌, ◌≤◌, ◌-◌, ◌%◌, ℕ, pos,
  is_some, length, take, drop,
}
use super_mario_bros_wonder.Bytes.{Bytes, IsByte, UdpAddr, uint16, uint32, to4, put_uint32}
use super_mario_bros_wonder.Stun.{
  Attributes, unknown_kinds, refused, out_of_fuel, binding_request, scan_attributes, attribute,
  stun_binding_response, address_family,
}
use super_mario_bros_wonder.Stun.Mapped.{Mapped}
use super_mario_bros_wonder.Stun.Written.{Attribute, write_attributes, required_kinds}
use super_mario_bros_wonder.Stun.Correct.{
  scan_attributes-terminates, stun_binding_response-Mapped, stun_binding_response-scan_attributes,
  stun_binding_response-Framed,
}
use super_mario_bros_wonder.Stun.Requests.{
  scan_attributes-write_attributes, stun_binding_response-integrity,
}

abbrev no_crc : Bytes → ℕ
no_crc bytes = 0

abbrev request : Bytes
request = 0 ∷ 1 ∷ 0 ∷ 0 ∷ 33 ∷ 18 ∷ 164 ∷ 66 ∷ 1 ∷ 2 ∷ 3 ∷ 4 ∷ 5 ∷ 6 ∷ 7 ∷ 8 ∷ 9 ∷ 10 ∷ 11 ∷ 12 ∷ []

abbrev client : UdpAddr
client = record { ip = 127 ∷ 0 ∷ 0 ∷ 1 ∷ []; port = pos 7 }

abbrev response : Bytes
response =
    1 ∷ 1 ∷ 0 ∷ 20 ∷ 33 ∷ 18 ∷ 164 ∷ 66 ∷ 1 ∷ 2 ∷ 3 ∷ 4 ∷ 5 ∷ 6 ∷ 7 ∷ 8 ∷ 9 ∷ 10 ∷ 11 ∷ 12 ∷ 0 ∷ 32
    ∷ 0 ∷ 8 ∷ 0 ∷ 1 ∷ 33 ∷ 21 ∷ 94 ∷ 18 ∷ 164 ∷ 67 ∷ 128 ∷ 40 ∷ 0 ∷ 4 ∷ 83 ∷ 84 ∷ 85 ∷ 78 ∷ []

is_binding : binding_request request ≡ true
unfolding binding_request uint16 uint32
is_binding = refl

no_attributes : scan_attributes (length request) no_crc request 20 [] ≡ unknown_kinds []
unfolding scan_attributes
no_attributes = refl

loopback : address_family client.ip ≡ some (1, client.ip)
unfolding address_family to4
loopback = refl

answered : stun_binding_response no_crc request (some client) ≡ some response
unfolding stun_binding_response binding_request uint16 uint32 super_mario_bros_wonder.Stun.answer
    scan_attributes super_mario_bros_wonder.Stun.mapped_address address_family to4
    super_mario_bros_wonder.Stun.finish_response attribute super_mario_bros_wonder.Stun.pad
    super_mario_bros_wonder.Bytes.set_uint16 super_mario_bros_wonder.Stun.response_header
    super_mario_bros_wonder.Bytes.put_uint16 super_mario_bros_wonder.Stun.xor_bytes put_uint32
answered = refl

scan_attributes-terminates_example :
    (scan_attributes 90 no_crc request 20 []
      ≡ scan_attributes (length request) no_crc request 20 [])
    × (scan_attributes 90 no_crc request 20 [] ≢ out_of_fuel)
scan_attributes-terminates_example =
    scan_attributes-terminates no_crc request 90 is_binding (omega arith)

stun_binding_response-Mapped_example :
    (r : Bytes) × (stun_binding_response no_crc request (some client) ≡ some r)
    × Mapped r 1 7 client.ip
stun_binding_response-Mapped_example =
    stun_binding_response-Mapped no_crc request client.ip 1 7 client.ip is_binding no_attributes
      loopback (omega arith) (omega arith)

stun_binding_response-scan_attributes_example :
    (scan_attributes (length response) no_crc response 20 [] ≡ unknown_kinds (0x0020 ∷ []))
    ⊎ (scan_attributes (length response) no_crc response 20 [] ≡ unknown_kinds (9 ∷ 10 ∷ []))
stun_binding_response-scan_attributes_example =
    stun_binding_response-scan_attributes no_crc request (some client) response (λ b. omega arith)
      answered

stun_binding_response-Framed_example :
    (length response ≤ 800)
    × (length response % 4 ≡ 0)
    × (uint16 (drop 2 response) ≡ length response - 20)
    × (take 16 (drop 4 response) ≡ take 16 (drop 4 request))
stun_binding_response-Framed_example =
    stun_binding_response-Framed no_crc request (some client) response answered

abbrev attributes : List Attribute
attributes =
    record { kind = 0x8022; value = 65 ∷ [] } ∷ record { kind = 6; value = 1 ∷ 2 ∷ [] } ∷ []

scan_attributes-write_attributes_example :
    scan_attributes
      (length (write_attributes request attributes))
      no_crc
      (write_attributes request attributes)
      20
      []
    ≡ unknown_kinds (required_kinds attributes)
scan_attributes-write_attributes_example =
    scan_attributes-write_attributes no_crc request attributes (omega arith) (
      (omega arith, omega arith, (λ e. omega arith), (λ e. omega arith), (λ e. omega arith)),
      ((omega arith, omega arith, (λ e. omega arith), (λ e. omega arith), (λ e. omega arith)), tt),
    )

-- A header whose length counts one attribute of four bytes.
abbrev claiming : Bytes
claiming =
    0 ∷ 1 ∷ 0 ∷ 8 ∷ 33 ∷ 18 ∷ 164 ∷ 66 ∷ 1 ∷ 2 ∷ 3 ∷ 4 ∷ 5 ∷ 6 ∷ 7 ∷ 8 ∷ 9 ∷ 10 ∷ 11 ∷ 12 ∷ []

abbrev claim : Bytes
claim = 1 ∷ 2 ∷ 3 ∷ 4 ∷ []

-- The datagram passes the checks of its header; with another kind it is answered.
claims_binding : binding_request (attribute (write_attributes claiming []) 8 claim ++ []) ≡ true
unfolding binding_request uint16 uint32 attribute write_attributes super_mario_bros_wonder.Stun.pad
    super_mario_bros_wonder.Bytes.set_uint16 super_mario_bros_wonder.Bytes.put_uint16
claims_binding = refl

other_kind :
    is_some (
      stun_binding_response no_crc
        (attribute (write_attributes claiming []) 0x8022 claim ++ [])
        (some client))
    ≡ true
unfolding stun_binding_response binding_request uint16 uint32 super_mario_bros_wonder.Stun.answer
    write_attributes scan_attributes super_mario_bros_wonder.Stun.mapped_address address_family to4
    super_mario_bros_wonder.Stun.finish_response attribute super_mario_bros_wonder.Stun.pad
    super_mario_bros_wonder.Bytes.set_uint16 super_mario_bros_wonder.Stun.response_header
    super_mario_bros_wonder.Bytes.put_uint16 super_mario_bros_wonder.Stun.xor_bytes put_uint32
    super_mario_bros_wonder.Stun.attribute_kind
other_kind = refl

stun_binding_response-integrity_example :
    let request = attribute (write_attributes claiming []) 8 claim ++ [] in
    (scan_attributes (length request) no_crc request 20 [] ≡ refused)
    × (stun_binding_response no_crc request (some client) ≡ none)
stun_binding_response-integrity_example =
    stun_binding_response-integrity no_crc claiming [] 8 claim [] (some client) (omega arith) tt
      (inl refl) (omega arith)
