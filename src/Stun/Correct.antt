-- ===== src/Stun/Correct.antt =====
-- stun.go: stunBindingResponse as a whole.
use Prim.Native.Nat.{bit_xor}
use super_mario_bros_wonder.Base.{
  ℕ, true, false, ◌||◌, Option, some, List, [], ◌∷◌, ◌++◌, ◌-◌, ◌%◌, ◌<◌, ◌≤◌, ◌^◌, ◌≡◌, ◌≢◌, ◌⊎◌,
  refl, sym, ap, ◌∙◌, arith, inl, inr, pos, ltb_ℤ, length, length-append, append_assoc, take, drop,
  All,
}
use super_mario_bros_wonder.Bytes.{Bytes, uint16, put_uint16, UdpAddr}
use super_mario_bros_wonder.Bytes.Words.{length-drop, length-take, take-append}
use super_mario_bros_wonder.Stun.{
  error_420, put_kinds, out_of_fuel, unknown_kinds, scan_attributes, mapped_address, address_family,
  xor_bytes, answer, binding_request, stun_binding_response,
}
use super_mario_bros_wonder.Stun.Scan.{added, length-added, scan_fuel}
use super_mario_bros_wonder.Stun.Written.{Attribute, Ordinary, encode, write_attributes}
use super_mario_bros_wonder.Stun.Answer.{
  signed, finish_response_lem, counted_header, length-encode, length-signed, scan-signed,
}
use super_mario_bros_wonder.Stun.Cases.{
  mapped_attributes, error_attributes, mapped_answer, error_answer, Answered-cases,
  binding_request-bounds, mapped_address-length, address_family-length, length-put_kinds,
  scan_count,
}
use super_mario_bros_wonder.Stun.Mapped.{Mapped, signed-Mapped, mapped_value}

-- On a request that passes the first checks, the loop over the attributes ends with the length as
-- fuel, and any more fuel gives the same.
pub scan_attributes-terminates :
    (crc : Bytes → ℕ) (request : Bytes) (n : ℕ)
    → binding_request request ≡ true
    → length request ≤ n
    → (scan_attributes n crc request 20 [] ≡ scan_attributes (length request) crc request 20 [])
      × (scan_attributes n crc request 20 [] ≢ out_of_fuel)
scan_attributes-terminates crc request n h k =
    let b = binding_request-bounds request h in
    scan_fuel n (length request) crc request 20 [] (omega (arith, b.0), omega (arith, b.0))
      (omega (arith, b.0), omega arith)

port_fits :
    (port : ℕ)
    → 0 < port
    → port < 65536
    → (ltb_ℤ (pos port) (pos 1) || ltb_ℤ (pos 65535) (pos port)) ≡ false
port_fits port p q = ground arith

mapped_address-family :
    (request address : Bytes) (family port : ℕ) (ip : Bytes)
    → address_family address ≡ some (family, ip)
    → 0 < port
    → port < 65536
    → mapped_address request (some (record { ip = address; port = pos port }))
      ≡ some (mapped_value family (bit_xor port 0x2112) (xor_bytes ip (drop 4 request)))
unfolding mapped_address
mapped_address-family request address family port ip e p q = rw (port_fits port p q, e) refl

-- A request that passes the first checks, and whose attributes need not be understood, gets an answer;
-- a client finds in it the port and the address that the request came from, for an address of a
-- family that the server knows and a port from 1 to 65535.
pub stun_binding_response-Mapped :
    (crc : Bytes → ℕ) (request address : Bytes) (family port : ℕ) (ip : Bytes)
    → binding_request request ≡ true
    → scan_attributes (length request) crc request 20 [] ≡ unknown_kinds []
    → address_family address ≡ some (family, ip)
    → 0 < port
    → port < 65536
    → (response : Bytes) × (stun_binding_response crc request
          (some (record { ip = address; port = pos port }))
        ≡ some response)
      × Mapped response family port ip
unfolding stun_binding_response answer write_attributes
stun_binding_response-Mapped crc request address family port ip h s e p q =
    let b = binding_request-bounds request h in
    (
      _,
      rw (h, s, mapped_address-family request address family port ip e p q, answer)
          (ap some (finish_response_lem crc 0x0101 request (mapped_attributes _) b.0)),
      signed-Mapped crc request family port ip b.0 q (address_family-length address family ip e),
    )

Ordinary-mapped : (mapped : Bytes) → length mapped ≤ 20 → All Ordinary (mapped_attributes mapped)
Ordinary-mapped mapped h =
    ((omega arith, omega arith, (λ e. omega arith), (λ e. omega arith), (λ e. omega arith)), tt)

-- The number of kinds that a request of at most 1,500 bytes can hold.
kinds_bound :
    (crc : Bytes → ℕ) (request : Bytes) (ks : List ℕ)
    → binding_request request ≡ true
    → scan_attributes (length request) crc request 20 [] ≡ unknown_kinds ks
    → length ks ≤ 370
kinds_bound crc request ks h e =
    let b = binding_request-bounds request h in
    omega (
      arith,
      b.0,
      b.1,
      b.2,
      scan_count (length request) crc request 20 [] ks (omega arith) (omega (arith, b.0)) e,
    )

Ordinary-errors : (ks : List ℕ) → length ks ≤ 370 → All Ordinary (error_attributes ks)
unfolding error_420
Ordinary-errors ks h = (
  (omega arith, omega arith, (λ e. omega arith), (λ e. omega arith), (λ e. omega arith)),
  (
    (
      omega arith,
      omega (arith, length-put_kinds ks),
      (λ e. omega arith),
      (λ e. omega arith),
      (λ e. omega arith),
    ),
    tt,
  ),
)

abbrev pub Reads : (Bytes → ℕ) → Bytes → List ℕ → Type 0
Reads crc response ks = scan_attributes (length response) crc response 20 [] ≡ unknown_kinds ks

-- Every answer passes the server's own check of attributes, its fingerprint included, where the
-- checksum is a number of 32 bits: it holds a mapped address, or an error and a list of kinds.
pub stun_binding_response-scan_attributes :
    (crc : Bytes → ℕ) (request : Bytes) (remote : Option UdpAddr) (response : Bytes)
    → ((bytes : Bytes) → crc bytes < 2 ^ 32)
    → stun_binding_response crc request remote ≡ some response
    → Reads crc response (0x0020 ∷ []) ⊎ Reads crc response (9 ∷ 10 ∷ [])
stun_binding_response-scan_attributes crc request remote response c e =
    let (h, answered) = Answered-cases crc request remote response e in
    let b = binding_request-bounds request h in
    elim answered [
      | mapped_answer mapped s m r ↦ inl (
          rw r (
            scan-signed crc 0x0101 request (mapped_attributes mapped) c b.0
              (Ordinary-mapped mapped (mapped_address-length request remote mapped m))))
      | error_answer k ks s r ↦ inr (
          rw r (
            scan-signed crc 0x0111 request (error_attributes (k ∷ ks)) c b.0
              (Ordinary-errors (k ∷ ks) (kinds_bound crc request (k ∷ ks) h s))))
    ]

length-mapped :
    (mapped : Bytes) → length mapped ≤ 20 → length (encode (mapped_attributes mapped)) ≤ 24
unfolding encode
length-mapped mapped h =
    omega (arith, length-append (added 0x0020 mapped) [], length-added 0x0020 mapped)

length-errors : (ks : List ℕ) → length ks ≤ 370 → length (encode (error_attributes ks)) ≤ 772
unfolding encode error_420
length-errors ks h = omega (
  arith,
  length-append (added 9 error_420) (added 10 (put_kinds ks) ++ []),
  length-append (added 10 (put_kinds ks)) [],
  length-added 9 error_420,
  length-added 10 (put_kinds ks),
  length-put_kinds ks,
)

-- The size of an answer, its length field, and its transaction.
abbrev Framed : Bytes → Bytes → Type 0
Framed request response =
    (length response ≤ 800)
    × (length response % 4 ≡ 0)
    × (uint16 (drop 2 response) ≡ length response - 20)
    × (take 16 (drop 4 response) ≡ take 16 (drop 4 request))

take_middle : (n : ℕ) (xs a b : Bytes) → n ≡ length xs → take n ((xs ++ a) ++ b) ≡ xs
take_middle n xs a b e =
    ap (λ k. take k ((xs ++ a) ++ b)) e
    ∙ ap (take (length xs)) (append_assoc xs a b)
    ∙ take-append xs (a ++ b)

signed-Framed :
    (crc : Bytes → ℕ) (kind : ℕ) (request : Bytes) (attributes : List Attribute)
    → 20 ≤ length request
    → length (encode attributes) ≤ 772
    → Framed request (signed crc kind request attributes)
unfolding counted_header put_uint16 uint16
signed-Framed crc kind request attributes h k =
    let long = length-signed crc kind request attributes h in
    let transaction = take 16 (drop 4 request) in
    (
      omega (arith, long),
      omega (arith, long, length-encode attributes),
      omega (arith, long),
      take_middle 16 transaction (encode attributes) _
          (sym (length-take 16 (drop 4 request) (omega (arith, length-drop 4 request)))),
    )

-- An answer has at most 800 bytes, a multiple of four, the length in its header is that of what
-- follows the header, and it carries the transaction of the request.
pub stun_binding_response-Framed :
    (crc : Bytes → ℕ) (request : Bytes) (remote : Option UdpAddr) (response : Bytes)
    → stun_binding_response crc request remote ≡ some response
    → Framed request response
stun_binding_response-Framed crc request remote response e =
    let (h, answered) = Answered-cases crc request remote response e in
    let b = binding_request-bounds request h in
    elim answered [
      | mapped_answer mapped s m r ↦ rw r (
          signed-Framed crc 0x0101 request (mapped_attributes mapped) b.0
            (omega (arith, length-mapped mapped (mapped_address-length request remote mapped m))))
      | error_answer k ks s r ↦ rw r (
          signed-Framed crc 0x0111 request (error_attributes (k ∷ ks)) b.0
            (length-errors (k ∷ ks) (kinds_bound crc request (k ∷ ks) h s)))
    ]
