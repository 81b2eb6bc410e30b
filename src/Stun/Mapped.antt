-- ===== src/Stun/Mapped.antt =====
-- stun.go: the mapped address of an answer, as a client reads it.
use Prim.Native.Nat.{bit_xor}
use super_mario_bros_wonder.Base.{
  ℕ, zero, suc, List, [], ◌∷◌, ◌++◌, ◌+◌, ◌-◌, ◌<◌, ◌≤◌, ◌≡◌, refl, sym, ap, ◌∙◌, arith, length,
  append_assoc, take, drop,
}
use super_mario_bros_wonder.Bytes.{Bytes, uint16, put_uint16}
use super_mario_bros_wonder.Bytes.Words.{
  length-drop, length-take, drop-add, drop-append, take-append,
}
use super_mario_bros_wonder.Bytes.Xor.{bit_xor_cancel, bit_xor_bound}
use super_mario_bros_wonder.Stun.{xor_bytes}
use super_mario_bros_wonder.Stun.Scan.{added}
use super_mario_bros_wonder.Stun.Written.{Attribute, encode, fingerprint}
use super_mario_bros_wonder.Stun.Answer.{signed, counted_header, length-counted_header}
use super_mario_bros_wonder.Stun.Cases.{mapped_attributes, length-xor_bytes}

-- The port, the family and the address that stand in the first attribute of an answer.
unfoldable pub mapped_port : Bytes → ℕ
mapped_port response = bit_xor (uint16 (drop 26 response)) 0x2112

unfoldable pub mapped_family : Bytes → ℕ
mapped_family response = uint16 (drop 24 response)

unfoldable pub mapped_ip : Bytes → Bytes
mapped_ip response =
    xor_bytes (take (uint16 (drop 22 response) - 4) (drop 28 response)) (drop 4 response)

pub take-drop : (n : ℕ) (xs : Bytes) → xs ≡ take n xs ++ drop n xs
take-drop zero xs = refl
take-drop (suc n) [] = refl
take-drop (suc n) (x ∷ xs) = ap (λ l. x ∷ l) (take-drop n xs)

-- The mask is taken off again, where the two masks begin alike.
xor_bytes_cancel :
    (ip mask x y : Bytes)
    → length ip ≤ length mask
    → xor_bytes (xor_bytes ip (mask ++ x)) (mask ++ y) ≡ ip
unfolding xor_bytes
xor_bytes_cancel [] mask x y h = refl
xor_bytes_cancel (v ∷ ip) [] x y h = absurd (omega arith)
xor_bytes_cancel (v ∷ ip) (m ∷ mask) x y h =
    rw (bit_xor_cancel v m, xor_bytes_cancel ip mask x y (omega arith)) refl

abbrev pub mapped_value : ℕ → ℕ → Bytes → Bytes
mapped_value family port masked = 0 ∷ family ∷ put_uint16 port ++ masked

-- Behind the header of an answer stand its attributes and the fingerprint.
drop-signed :
    (crc : Bytes → ℕ) (kind : ℕ) (request : Bytes) (attributes : List Attribute)
    → 20 ≤ length request
    → (rest : Bytes) × (drop 20 (signed crc kind request attributes) ≡ encode attributes ++ rest)
drop-signed crc kind request attributes h =
    let header = counted_header kind (length (encode attributes) + 8) request in
    let counted = header ++ encode attributes in
    let tail = added 0x8028 (fingerprint crc counted) in
    (
      tail,
      ap (drop 20) (append_assoc header (encode attributes) tail)
          ∙ ap (λ n. drop n (header ++ (encode attributes ++ tail)))
              (sym (length-counted_header kind (length (encode attributes) + 8) request h))
          ∙ drop-append header (encode attributes ++ tail),
    )

transaction-signed :
    (crc : Bytes → ℕ) (kind : ℕ) (request : Bytes) (attributes : List Attribute)
    → (rest : Bytes) × (drop 4 (signed crc kind request attributes)
        ≡ take 16 (drop 4 request) ++ rest)
unfolding counted_header put_uint16
transaction-signed crc kind request attributes =
    (_, append_assoc (take 16 (drop 4 request)) (encode attributes) _)

take_front : (n : ℕ) (xs a b c : Bytes) → n ≡ length xs → take n (((xs ++ a) ++ b) ++ c) ≡ xs
take_front n xs a b c e =
    ap (λ k. take k (((xs ++ a) ++ b) ++ c)) e
    ∙ ap (take (length xs)) (append_assoc (xs ++ a) b c ∙ append_assoc xs a (b ++ c))
    ∙ take-append xs (a ++ (b ++ c))

-- The words and the bytes of the attribute.
attribute_parts :
    (family port : ℕ) (masked rest : Bytes)
    → port < 65536
    → length masked < 65532
    → let body = encode (mapped_attributes (mapped_value family port masked)) ++ rest in
      (uint16 (drop 6 body) ≡ port)
      × (uint16 (drop 4 body) ≡ family)
      × (take (uint16 (drop 2 body) - 4) (drop 8 body) ≡ masked)
unfolding encode added put_uint16 uint16
attribute_parts family port masked rest h k =
    (omega arith, omega arith, take_front _ masked _ [] rest (omega arith))

-- What a client reads from the answer, for a request and an address that are answered.
abbrev pub Mapped : Bytes → ℕ → ℕ → Bytes → Type 0
Mapped response family port ip =
    (mapped_family response ≡ family) × (mapped_port response ≡ port) × (mapped_ip response ≡ ip)

drop_later : (n k : ℕ) (r body : Bytes) → drop n r ≡ body → drop (n + k) r ≡ drop k body
drop_later n k r body e = drop-add n k r ∙ ap (drop k) e

ip_same :
    (a a' b b' c c' : Bytes)
    → a ≡ a'
    → b ≡ b'
    → c ≡ c'
    → xor_bytes (take (uint16 a - 4) b) c ≡ xor_bytes (take (uint16 a' - 4) b') c'
ip_same a a' b b' c c' e f g = rw (e, f, g) refl

pub signed-Mapped :
    (crc : Bytes → ℕ) (request : Bytes) (family port : ℕ) (ip : Bytes)
    → 20 ≤ length request
    → port < 65536
    → length ip ≤ 16
    → Mapped
        (signed crc 0x0101 request (
          mapped_attributes
            (mapped_value family (bit_xor port 0x2112) (xor_bytes ip (drop 4 request)))))
        family
        port
        ip
unfolding mapped_family mapped_port mapped_ip
signed-Mapped crc request family port ip h k l =
    let masked = xor_bytes ip (drop 4 request) in
    let attributes = mapped_attributes (mapped_value family (bit_xor port 0x2112) masked) in
    let response = signed crc 0x0101 request attributes in
    let (rest, e) = drop-signed crc 0x0101 request attributes h in
    let (after, t) = transaction-signed crc 0x0101 request attributes in
    let body = encode attributes ++ rest in
    let transaction = take 16 (drop 4 request) in
    let (p, f, m) =
      attribute_parts family (bit_xor port 0x2112) masked rest
        (bit_xor_bound 16 port 0x2112 k (omega arith))
        (omega (arith, length-xor_bytes ip (drop 4 request))) in
    (
      ap uint16 (drop_later 20 4 response body e) ∙ f,
      ap (λ w. bit_xor (uint16 w) 0x2112) (drop_later 20 6 response body e)
          ∙ ap (λ w. bit_xor w 0x2112) p
          ∙ bit_xor_cancel port 0x2112,
      ip_same _ (drop 2 body) _ (drop 8 body) _ (transaction ++ after)
            (drop_later 20 2 response body e) (drop_later 20 8 response body e) t
          ∙ ap (λ w. xor_bytes w (transaction ++ after)) m
          ∙ ap (λ d. xor_bytes (xor_bytes ip d) (transaction ++ after))
              (take-drop 16 (drop 4 request))
          ∙ xor_bytes_cancel ip transaction (drop 16 (drop 4 request)) after (
              omega
                (arith, length-take 16 (drop 4 request) (omega (arith, length-drop 4 request)))),
    )
