-- ===== src/Nncs/Replies.antt =====
-- nncs.go: the message of an answer, as the client reads it.
use super_mario_bros_wonder.Base.{
  ℕ, pos, some, [], ◌∷◌, ◌++◌, ◌%◌, ◌<◌, ◌≡◌, refl, sym, ap, ◌∙◌, arith, length, All,
}
use super_mario_bros_wonder.Bytes.{Bytes, IsByte, uint32, put_uint32, to4}
use super_mario_bros_wonder.Bytes.Words.{uint32-put_uint32, to4-length}
use super_mario_bros_wonder.Nncs.{
  NncsMessage, NncsSocket, NncsServer, parse_nncs_message, build_nncs_response, handle_datagram,
}
use super_mario_bros_wonder.Nncs.Sockets.{handle-reply, replied, message_type-uint32}

uint32_bound : (bytes : Bytes) → All IsByte bytes → uint32 bytes < 4294967296
unfolding uint32
uint32_bound [] h = omega arith
uint32_bound (a ∷ []) h = omega arith
uint32_bound (a ∷ b ∷ []) h = omega arith
uint32_bound (a ∷ b ∷ c ∷ []) h = omega arith
uint32_bound (a ∷ b ∷ c ∷ d ∷ _) (h, (i, (j, (k, _)))) = omega arith

abbrev message : ℕ → ℕ → ℕ → ℕ → NncsMessage
message a b c d = record {
  message_type = a;
  external_port = b;
  external_address = c;
  local_address = d;
}

same_message :
    (a a' b b' c c' d d' : ℕ)
    → a ≡ a'
    → b ≡ b'
    → c ≡ c'
    → d ≡ d'
    → some (message a b c d) ≡ some (message a' b' c' d')
same_message a a' b b' c c' d d' e f g h = rw (e, f, g, h) refl

same_bytes :
    (a a' b b' c c' d d' : ℕ)
    → a ≡ a'
    → b ≡ b'
    → c ≡ c'
    → d ≡ d'
    → (a ∷ b ∷ c ∷ d ∷ []) ≡ (a' ∷ b' ∷ c' ∷ d' ∷ [])
same_bytes a a' b b' c c' d d' e f g h = rw (e, f, g, h) refl

-- An address of four bytes is read from its word.
put_uint32-uint32 : (ip : Bytes) → All IsByte ip → length ip ≡ 4 → put_uint32 (uint32 ip) ≡ ip
unfolding uint32 put_uint32
put_uint32-uint32 [] h e = absurd (omega arith)
put_uint32-uint32 (a ∷ []) h e = absurd (omega arith)
put_uint32-uint32 (a ∷ b ∷ []) h e = absurd (omega arith)
put_uint32-uint32 (a ∷ b ∷ c ∷ []) h e = absurd (omega arith)
put_uint32-uint32 (a ∷ b ∷ c ∷ d ∷ []) (h, (i, (j, (k, _)))) e =
    same_bytes _ a _ b _ c _ d (omega arith) (omega arith) (omega arith) (omega arith)
put_uint32-uint32 (a ∷ b ∷ c ∷ d ∷ x ∷ xs) h e = absurd (omega arith)

-- Four words that are written are read again.
parse_words :
    (a b c d : ℕ)
    → a < 4294967296
    → b < 4294967296
    → c < 4294967296
    → d < 4294967296
    → parse_nncs_message (put_uint32 a ++ (put_uint32 b ++ (put_uint32 c ++ put_uint32 d)))
      ≡ some (message a b c d)
unfolding parse_nncs_message put_uint32 uint32
parse_words a b c d h i j k =
    same_message _ a _ b _ c _ d (uint32-put_uint32 a [] h) (uint32-put_uint32 b [] i)
      (uint32-put_uint32 c [] j) (uint32-put_uint32 d [] k)

same_some : (a b : Bytes) → some a ≡ some b → a ≡ b
same_some a b e = ground arith

build_cases :
    (t port : ℕ) (ip local remote_ip local_ip response : Bytes)
    → to4 ip ≡ some remote_ip
    → to4 local ≡ some local_ip
    → port < 4294967296
    → build_nncs_response t (record { ip = ip; port = pos port }) local ≡ some response
    → response
      ≡ put_uint32 t
        ++ (put_uint32 port ++ (put_uint32 (uint32 remote_ip) ++ put_uint32 (uint32 local_ip)))
unfolding build_nncs_response
build_cases t port ip local remote_ip local_ip response e f h g =
    let k = rw (e, f, build_nncs_response) at g in
    let small : port % 4294967296 ≡ port = omega arith in
    sym (same_some _ _ k)
    ∙ ap
        (λ n.
          put_uint32 t
          ++ (put_uint32 n ++ (put_uint32 (uint32 remote_ip) ++ put_uint32 (uint32 local_ip))))
        small

-- An answer to a payload of bytes, sent to a client with an IPv4 address, is a message that is parsed:
-- of the type of the request, with the port and the four bytes of the address that the request came
-- from, and with those of the server's local address.
pub handle_datagram-parse_nncs_message :
    (server : NncsServer) (socket from : NncsSocket)
    (payload ip response remote_ip local_ip : Bytes) (port : ℕ)
    → All IsByte payload
    → All IsByte remote_ip
    → All IsByte local_ip
    → to4 ip ≡ some remote_ip
    → to4 server.config.server_local_ip ≡ some local_ip
    → port < 65536
    → handle_datagram server socket payload (record { ip = ip; port = pos port })
      ≡ some (from, response)
    → (m : NncsMessage) × (parse_nncs_message response ≡ some m)
      × (m.message_type ≡ uint32 payload)
      × (m.external_port ≡ port)
      × (put_uint32 m.external_address ≡ remote_ip)
      × (put_uint32 m.local_address ≡ local_ip)
handle_datagram-parse_nncs_message server socket from payload ip response remote_ip local_ip port p
      r l e f h g =
    let (request, reply, built) =
      handle-reply server socket payload (record { ip = ip; port = pos port }) from response g in
    let t = request.message_type in
    let t_lem : t ≡ uint32 payload = elim reply [
      | replied route q k n s ↦ message_type-uint32 payload request q
    ] in
    (
      message t port (uint32 remote_ip) (uint32 local_ip),
      ap parse_nncs_message (
            build_cases t port ip server.config.server_local_ip remote_ip local_ip response e f
              (omega arith) built)
          ∙ parse_words t port (uint32 remote_ip) (uint32 local_ip)
              (omega (arith, t_lem, uint32_bound payload p)) (omega arith)
              (uint32_bound remote_ip r) (uint32_bound local_ip l),
      t_lem,
      refl,
      put_uint32-uint32 remote_ip r (to4-length ip remote_ip e),
      put_uint32-uint32 local_ip l (to4-length server.config.server_local_ip local_ip f),
    )
