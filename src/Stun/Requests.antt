-- ===== src/Stun/Requests.antt =====
-- stun.go: requests that are written attribute by attribute.
use super_mario_bros_wonder.Base.{
  ℕ, suc, Bool-cases, Option, none, List, [], ◌++◌, ◌+◌, ◌<◌, ◌≡◌, ◌⊎◌, refl, sym, ap, ◌∙◌, arith,
  inl, inr, length, length-append, append_assoc, append-nil, All,
}
use super_mario_bros_wonder.Bytes.{Bytes, UdpAddr}
use super_mario_bros_wonder.Stun.{
  attribute_kind, refused, attribute, scan_attributes, answer, binding_request,
  stun_binding_response,
}
use super_mario_bros_wonder.Stun.Scan.{
  added, scan_fuel, scan_end, attribute_lem, attribute_round, continue,
}
use super_mario_bros_wonder.Stun.Written.{
  Attribute, Ordinary, encode, write_attributes, write_attributes_lem, required_kinds, scan_written,
}
use super_mario_bros_wonder.Stun.Answer.{length-encode}
use super_mario_bros_wonder.Stun.Correct.{Reads}

-- Of a request that the server's own writer makes, from attributes that are neither a fingerprint nor
-- a claim of integrity and fit their headers, the loop reads the kinds that must be understood, in
-- their order.
pub scan_attributes-write_attributes :
    (crc : Bytes → ℕ) (header : Bytes) (attributes : List Attribute)
    → length header ≡ 20
    → All Ordinary attributes
    → Reads crc (write_attributes header attributes) (required_kinds attributes)
scan_attributes-write_attributes crc header attributes h o =
    let whole = header ++ (encode attributes ++ []) in
    let n = suc (length whole) in
    let counted = length-append header (encode attributes ++ []) in
    let written : write_attributes header attributes ≡ whole =
      write_attributes_lem header attributes (omega arith)
      ∙ ap (λ r. header ++ r) (sym (append-nil (encode attributes))) in
    ap (λ r. scan_attributes (length r) crc r 20 []) written
    ∙ (scan_fuel (length whole) (length attributes + n) crc whole 20 [] (omega arith, omega arith)
        (omega arith, omega arith)).0
    ∙ ap (λ p. scan_attributes (length attributes + n) crc whole p []) (sym h)
    ∙ scan_written attributes n crc header [] [] (omega arith) o
    ∙ ap (λ r. scan_attributes n crc whole (length r) (required_kinds attributes))
        (ap (λ r. header ++ r) (sym (append-nil (encode attributes))))
    ∙ scan_end (length whole) crc whole (required_kinds attributes)

integrity_kind :
    (crc : Bytes → ℕ) (request : Bytes) (p kind size : ℕ) (u : List ℕ)
    → (kind ≡ 8) ⊎ (kind ≡ 0x1c)
    → attribute_kind crc request p kind size u ≡ none
unfolding attribute_kind
integrity_kind crc request p kind size u (inl e) = rw e refl
integrity_kind crc request p kind size u (inr e) = rw e refl

scan-integrity :
    (crc : Bytes → ℕ) (header : Bytes) (attributes : List Attribute) (kind : ℕ) (value rest : Bytes)
    → length header ≡ 20
    → All Ordinary attributes
    → (kind ≡ 8) ⊎ (kind ≡ 0x1c)
    → kind < 65536
    → length value < 65536
    → let whole = header ++ (encode attributes ++ (added kind value ++ rest)) in
      scan_attributes (length whole) crc whole 20 [] ≡ refused
scan-integrity crc header attributes kind value rest h o k w v =
    let next = added kind value ++ rest in
    let whole = header ++ (encode attributes ++ next) in
    let before = header ++ encode attributes in
    let regroup = sym (append_assoc header (encode attributes) next) in
    let n = suc (length whole) in
    let ks = required_kinds attributes in
    let counted = length-append header (encode attributes ++ next) in
    (scan_fuel (length whole) (length attributes + n) crc whole 20 [] (omega arith, omega arith)
      (omega arith, omega arith)).0
    ∙ ap (λ p. scan_attributes (length attributes + n) crc whole p []) (sym h)
    ∙ scan_written attributes n crc header next [] (omega arith) o
    ∙ ap (λ r. scan_attributes n crc r (length before) ks) regroup
    ∙ attribute_round (length whole) crc before kind value rest ks w v
    ∙ ap (continue (length whole) crc (before ++ next) _)
        (integrity_kind crc (before ++ next) (length before) kind (length value) ks k)

refused_none :
    (crc : Bytes → ℕ) (request : Bytes) (remote : Option UdpAddr)
    → scan_attributes (length request) crc request 20 [] ≡ refused
    → stun_binding_response crc request remote ≡ none
unfolding stun_binding_response answer
refused_none crc request remote e = elim (Bool-cases (binding_request request)) [
  | inl h ↦ rw (h, e) refl
  | inr h ↦ rw h refl
]

-- A request that claims integrity, by an attribute of kind 8 or 28 behind attributes that the loop
-- passes, is refused by that loop, whatever follows, and gets no answer.
pub stun_binding_response-integrity :
    (crc : Bytes → ℕ) (header : Bytes) (attributes : List Attribute) (kind : ℕ) (value rest : Bytes)
    (remote : Option UdpAddr)
    → length header ≡ 20
    → All Ordinary attributes
    → (kind ≡ 8) ⊎ (kind ≡ 0x1c)
    → length value < 65536
    → let request = attribute (write_attributes header attributes) kind value ++ rest in
      (scan_attributes (length request) crc request 20 [] ≡ refused)
      × (stun_binding_response crc request remote ≡ none)
stun_binding_response-integrity crc header attributes kind value rest remote h o k v =
    let start = write_attributes header attributes in
    let body = encode attributes in
    let start_lem : start ≡ header ++ body = write_attributes_lem header attributes (omega arith) in
    let whole : attribute start kind value ++ rest
        ≡ header ++ (body ++ (added kind value ++ rest)) =
      ap (λ r. r ++ rest)
        (attribute_lem start kind value
          (omega (arith, ap length start_lem, length-append header body, length-encode attributes)))
      ∙ append_assoc start (added kind value) rest
      ∙ ap (λ r. r ++ (added kind value ++ rest)) start_lem
      ∙ append_assoc header body (added kind value ++ rest) in
    let refusal =
      scan-integrity crc header attributes kind value rest h o k
        (elim k [ inl e ↦ omega arith | inr e ↦ omega arith ]) v in
    rw whole (refusal, refused_none crc _ remote refusal)
