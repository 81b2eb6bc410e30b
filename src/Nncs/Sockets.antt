-- ===== src/Nncs/Sockets.antt =====
-- nncs.go: the socket that an answer leaves from.
use mathlib.Core.List.{Memᴰ}
use mathlib.Core.List.Memᴰ
use super_mario_bros_wonder.Base.{
  ℕ, true, false, not, ◌||◌, some, List, [], ◌∷◌, ◌≡◌, ◌≢◌, ◌⊎◌, inl, inr, refl, sym, ap, ◌∙◌,
  arith, if◌then◌else◌, eqb, eqb_iff, Bool-cases, Option-cases, All, is_some, All-keep, subst,
}
use super_mario_bros_wonder.Bytes.{Bytes, uint32, to4, to16, UdpAddr}
use super_mario_bros_wonder.Nncs.{
  NncsConfig, NncsMessage, NncsSocket, NncsServer, Route, ip_equal, start_nncs_server, all_sockets,
  sink_sockets, parse_nncs_message, nncs_response_route, bytes_equal, alternate_of,
  alternate_socket, reply_socket, handle_datagram, build_nncs_response,
}

All-Mem :
    (P : NncsSocket → Type 0) (sockets : List NncsSocket) (s : NncsSocket)
    → All P sockets
    → Memᴰ s sockets
    → P s
All-Mem P [] s h m = absurd (Memᴰ.not-nil m)
All-Mem P (x ∷ sockets) s (p, h) m = elim (Memᴰ.cases_cons m) [
  | inl e ↦ subst P (sym e) p
  | inr n ↦ All-Mem P sockets s h n
]

-- A socket that is read: it has one of the two numbers, with the address of that number.
abbrev Numbered : NncsConfig → NncsSocket → Type 0
Numbered c s =
    ((s.server_index ≡ 1) × (s.ip ≡ c.primary_ip))
    ⊎ ((s.server_index ≡ 2) × (s.ip ≡ c.secondary_ip))

sinks-Numbered :
    (c : NncsConfig) (ports : List ℕ) → All (Numbered c) (sink_sockets c.primary_ip ports)
unfolding sink_sockets
sinks-Numbered c [] = tt
sinks-Numbered c (p ∷ ports) = (inl (refl, refl), sinks-Numbered c ports)

All-Numbered : (c : NncsConfig) → All (Numbered c) (all_sockets c)
unfolding all_sockets
All-Numbered c = (
  inl (refl, refl),
  (
    inr (refl, refl),
    (
      inl (refl, refl),
      (inl (refl, refl), (inr (refl, refl), (inr (refl, refl), sinks-Numbered c c.sink_ports))),
    ),
  ),
)

-- A server as it is started.
abbrev Started : NncsServer → Type 0
Started server =
    All (Numbered server.config) server.readers
    × (server.alternate.0 ≡ alternate_socket server.config.primary_ip 1)
    × (server.alternate.1 ≡ alternate_socket server.config.secondary_ip 2)
    × (ip_equal server.config.primary_ip server.config.secondary_ip ≡ false)

same_server : (a b : NncsServer) → some a ≡ some b → a ≡ b
same_server a b e = ground arith

start-Started :
    (c : NncsConfig) (server : NncsServer) → start_nncs_server c ≡ some server → Started server
unfolding start_nncs_server
start-Started c server e =
    elim (Bool-cases (
      not (is_some (to4 c.primary_ip))
      || not (is_some (to4 c.secondary_ip))
      || not (is_some (to4 c.server_local_ip)))) [
        | inl g ↦ let f = rw (g, start_nncs_server) at e in absurd (ground arith)
        | inr g ↦ elim (Bool-cases (ip_equal c.primary_ip c.secondary_ip)) [
          | inl h ↦ let f = rw (g, h, start_nncs_server) at e in absurd (ground arith)
          | inr h ↦
              let f = rw (g, h, start_nncs_server) at e in
              subst Started (same_server _ _ f) (
                All-keep (Numbered c) (λ (s : NncsSocket). not s.response_only) (all_sockets c)
                    (All-Numbered c),
                refl,
                refl,
                h,
              )
        ]
      ]

bytes_equal_refl : (a : Bytes) → bytes_equal a a ≡ true
bytes_equal_refl [] = refl
bytes_equal_refl (a ∷ as') = rw ((eqb_iff a a).1 refl) (bytes_equal_refl as')

ip_equal_refl : (a : Bytes) → ip_equal a a ≡ true
unfolding ip_equal
ip_equal_refl a = elim (Option-cases (to16 a)) [
  | inl e ↦ rw (e, ip_equal) (bytes_equal_refl a)
  | inr (b, e) ↦ rw (e, ip_equal, e) (bytes_equal_refl b)
]

different : (a b : Bytes) → ip_equal a b ≡ false → a ≢ b
different a b h e =
    let f : ip_equal a b ≡ true = ap (λ x. ip_equal a x) (sym e) ∙ ip_equal_refl a in ground arith

-- A probe of type 2 is answered by the other server, each other by the server that it came to.
route_cases :
    (t n : ℕ) (route : Route)
    → nncs_response_route t n ≡ some route
    → ((t ≡ 2) × (route.alternate ≡ true) × (route.target_server ≡ (if eqb n 1 then 2 else 1)))
      ⊎ ((t ≢ 2) × (route.target_server ≡ n))
unfolding nncs_response_route
route_cases t n route e = ground arith

-- What an answer comes of.
pub data Replied (server : NncsServer) (socket : NncsSocket) (payload : Bytes) (from : NncsSocket)
    (message : NncsMessage) : Type 0 where
  replied :
      (route : Route)
      → parse_nncs_message payload ≡ some message
      → nncs_response_route message.message_type socket.server_index ≡ some route
      → from ≡ (if route.alternate then alternate_of server route.target_server else socket)
      → socket.sink ≡ false
      → Replied server socket payload from message

same_pair {ℓ κ} :
    {A : Type ℓ} {B : Type κ} (p q : A × B) → some p ≡ some q → (q.0 ≡ p.0) × (p.1 ≡ q.1)
same_pair p q e = ground arith

reply_cases :
    (server : NncsServer) (socket : NncsSocket) (payload : Bytes) (from : NncsSocket)
    (message : NncsMessage)
    → reply_socket server socket payload ≡ some (from, message)
    → Replied server socket payload from message
unfolding reply_socket
reply_cases server socket payload from message e = elim (Bool-cases socket.sink) [
  | inl g ↦ let f = rw (g, reply_socket) at e in absurd (ground arith)
  | inr g ↦ elim (Option-cases (parse_nncs_message payload)) [
    | inl p ↦ let f = rw (g, p, reply_socket) at e in absurd (ground arith)
    | inr (m, p) ↦ elim (Option-cases (nncs_response_route m.message_type socket.server_index)) [
      | inl r ↦ let f = rw (g, p, r, reply_socket) at e in absurd (ground arith)
      | inr (route, r) ↦
          let f = rw (g, p, r, reply_socket) at e in
          let (h, k) = same_pair _ _ f in
          replied route (p ∙ ap some k)
            (ap (λ (n : NncsMessage). nncs_response_route n.message_type socket.server_index)
                (sym k)
              ∙ r)
            h g
    ]
  ]
]

pub handle-reply :
    (server : NncsServer) (socket : NncsSocket) (payload : Bytes) (remote : UdpAddr)
    (from : NncsSocket) (response : Bytes)
    → handle_datagram server socket payload remote ≡ some (from, response)
    → (message : NncsMessage) × Replied server socket payload from message
      × (build_nncs_response message.message_type remote server.config.server_local_ip
          ≡ some response)
unfolding handle_datagram
handle-reply server socket payload remote from response e =
    elim (Option-cases (reply_socket server socket payload)) [
      | inl r ↦ let f = rw (r, handle_datagram) at e in absurd (ground arith)
      | inr ((a, m), r) ↦
          elim (Option-cases
            (build_nncs_response m.message_type remote server.config.server_local_ip)) [
              | inl b ↦ let f = rw (r, b, handle_datagram) at e in absurd (ground arith)
              | inr (bytes, b) ↦
                  let f = rw (r, b, handle_datagram) at e in
                  let (h, k) = same_pair _ _ f in
                  (
                    m,
                    reply_cases server socket payload from m (r ∙ ap (λ x. some (x, m)) (sym h)),
                    b ∙ ap some k,
                  )
            ]
    ]

pub message_type-uint32 :
    (payload : Bytes) (m : NncsMessage)
    → parse_nncs_message payload ≡ some m
    → m.message_type ≡ uint32 payload
unfolding parse_nncs_message
message_type-uint32 payload m e = ground arith

-- The address that an answer to a probe leaves from: another one than the probe came to for type 2,
-- the same for the others.
abbrev FromAddress : ℕ → NncsSocket → NncsSocket → Type 0
FromAddress t socket from = ((t ≡ 2) × (from.ip ≢ socket.ip)) ⊎ ((t ≢ 2) × (from.ip ≡ socket.ip))

first_alternate :
    (server : NncsServer) (k : ℕ)
    → Started server
    → k ≡ 1
    → (alternate_of server k).ip ≡ server.config.primary_ip
first_alternate server k (all, a, b, d) e = rw e (ap (λ (s : NncsSocket). s.ip) a)

second_alternate :
    (server : NncsServer) (k : ℕ)
    → Started server
    → k ≡ 2
    → (alternate_of server k).ip ≡ server.config.secondary_ip
second_alternate server k (all, a, b, d) e = rw e (ap (λ (s : NncsSocket). s.ip) b)

-- The alternate socket of a number has its address.
same_address :
    (server : NncsServer) (socket : NncsSocket)
    → Started server
    → Numbered server.config socket
    → (alternate_of server socket.server_index).ip ≡ socket.ip
same_address server socket s (inl (i, p)) = first_alternate server _ s i ∙ sym p
same_address server socket s (inr (i, p)) = second_alternate server _ s i ∙ sym p

other_address :
    (server : NncsServer) (socket : NncsSocket)
    → Started server
    → Numbered server.config socket
    → (alternate_of server (if eqb socket.server_index 1 then 2 else 1)).ip ≢ socket.ip
other_address server socket s (inl (i, p)) e =
    let f = second_alternate server (if eqb socket.server_index 1 then 2 else 1) s (rw i refl) in
    different server.config.primary_ip server.config.secondary_ip s.3 (sym p ∙ sym e ∙ f)
other_address server socket s (inr (i, p)) e =
    let f = first_alternate server (if eqb socket.server_index 1 then 2 else 1) s (rw i refl) in
    different server.config.primary_ip server.config.secondary_ip s.3 (sym f ∙ e ∙ p)

from-FromAddress :
    (server : NncsServer) (socket from : NncsSocket) (t : ℕ) (route : Route)
    → Started server
    → Numbered server.config socket
    → nncs_response_route t socket.server_index ≡ some route
    → from ≡ (if route.alternate then alternate_of server route.target_server else socket)
    → FromAddress t socket from
from-FromAddress server socket from t route s n r e =
    elim (route_cases t socket.server_index route r) [
      | inl (two, alt, target) ↦
          let f = rw (alt, target) at e in
          inl
            (two, λ g. other_address server socket s n (sym (ap (λ (x : NncsSocket). x.ip) f) ∙ g))
      | inr (other, target) ↦ inr (
        other,
        elim (Bool-cases route.alternate) [
          | inl alt ↦
              let f = rw (alt, target) at e in
              ap (λ (x : NncsSocket). x.ip) f ∙ same_address server socket s n
          | inr alt ↦ let f = rw alt at e in ap (λ (x : NncsSocket). x.ip) f
        ],
      )
    ]

-- Of a server that was started, a socket that is read and is no sink answers a probe of type 2 from
-- the other address than the probe was sent to, and each other probe that it answers from that
-- address; a sink answers nothing.
pub handle_datagram-FromAddress :
    (c : NncsConfig) (server : NncsServer) (socket from : NncsSocket) (payload response : Bytes)
    (remote : UdpAddr)
    → start_nncs_server c ≡ some server
    → Memᴰ socket server.readers
    → handle_datagram server socket payload remote ≡ some (from, response)
    → FromAddress (uint32 payload) socket from × (socket.sink ≡ false)
handle_datagram-FromAddress c server socket from payload response remote s m e =
    let (message, reply, built) = handle-reply server socket payload remote from response e in
    let started = start-Started c server s in
    elim reply [
      | replied route p r f k ↦ (
        subst (λ t. FromAddress t socket from) (message_type-uint32 payload message p)
            (from-FromAddress server socket from message.message_type route started
              (All-Mem (Numbered server.config) server.readers socket started.0 m) r f),
        k,
      )
    ]
