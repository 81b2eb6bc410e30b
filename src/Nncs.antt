-- ===== src/Nncs.antt =====
-- nncs.go: the NAT check. Its settings, its sockets, and what it answers to a datagram. A setting
-- that is not given is empty, and settings are ASCII; net.ParseIP is a parameter, and an address
-- that it does not read is the empty slice. Every bind is taken to succeed.
pub mod Sockets
pub mod Replies
use super_mario_bros_wonder.Base.{
  String, ℕ, ℤ, Bool, true, false, not, ◌&&◌, ◌||◌, Option, none, some, List, [], ◌∷◌, ◌++◌, ◌+◌,
  ◌-◌, ◌%◌, ◌==◌, ◌⊕◌, if◌then◌else◌, eqb, ltb, length, take, drop, keep, decimal, trim_space,
  strip_prefix_fold, is_some,
}
use super_mario_bros_wonder.Bytes.{Bytes, uint32, put_uint32, to4, to16, UdpAddr}

pub record NncsConfig : Type 0 where
  pub primary_ip : Bytes
  pub secondary_ip : Bytes
  pub server_local_ip : Bytes
  pub primary_port : ℕ
  pub secondary_port : ℕ
  pub sink_ports : List ℕ

pub record NncsMessage : Type 0 where
  pub message_type : ℕ
  pub external_port : ℕ
  pub external_address : ℕ
  pub local_address : ℕ

-- A socket, by the address and the port that it is bound to; the port 0 leaves it to the system.
pub record NncsSocket : Type 0 where
  pub ip : Bytes
  pub port : ℕ
  pub server_index : ℕ
  pub role : String
  pub response_only : Bool
  pub sink : Bool

-- strings.ToLower(s) == word
abbrev lower_is : String → String → Bool
lower_is word s = elim (strip_prefix_fold word s) [ none ↦ false | some rest ↦ rest == "" ]

abbrev or_default : String → String → String
or_default s default = if s == "" then default else s

unfoldable pub parse_nncs_ipv4 : (String → Bytes) → String → Option Bytes
parse_nncs_ipv4 parse_ip value = to4 (parse_ip value)

abbrev pub bytes_equal : Bytes → Bytes → Bool
bytes_equal [] [] = true
bytes_equal [] (b ∷ bs) = false
bytes_equal (a ∷ as') [] = false
bytes_equal (a ∷ as') (b ∷ bs) = eqb a b && bytes_equal as' bs

-- net.IP.Equal: an IPv4 address is equal to its form in 16 bytes.
unfoldable pub ip_equal : Bytes → Bytes → Bool
ip_equal a b = elim (to16 a) [
  | none ↦ bytes_equal a b
  | some a' ↦ elim (to16 b) [ none ↦ false | some b' ↦ bytes_equal a' b' ]
]

-- What the settings come to: an error, a service that is off, or its configuration.
pub data Configured : Type 0 where
  invalid disabled : Configured
  enabled : NncsConfig → Configured

unfoldable pub nncs_config : (String → Bytes) → String → String → String → Configured
nncs_config parse_ip primary secondary local = elim (parse_nncs_ipv4 parse_ip primary) [
  | none ↦ invalid
  | some p ↦ elim (parse_nncs_ipv4 parse_ip secondary) [
    | none ↦ invalid
    | some s ↦ elim (parse_nncs_ipv4 parse_ip local) [
      | none ↦ invalid
      | some l ↦
          if ip_equal p s
          then invalid
          else enabled (record {
            primary_ip = p;
            secondary_ip = s;
            server_local_ip = l;
            primary_port = 10025;
            secondary_port = 10125;
            sink_ports = 33334 ∷ 33335 ∷ [];
          })
    ]
  ]
]

unfoldable pub configured_nncs : (String → Bytes) → (String → String) → Configured
configured_nncs parse_ip getenv =
    let switch = trim_space (getenv "NPLN_NNCS_ENABLED") in
    let primary = or_default (trim_space (getenv "NEXTENDO_NNCS1_IP")) "127.0.0.1" in
    let secondary =
      or_default
        (or_default (trim_space (getenv "NEXTENDO_NNCS2_IP"))
          (trim_space (getenv "NEXTENDO_NAT_IP")))
        "127.0.0.2" in
    let local = or_default (trim_space (getenv "NPLN_NNCS_LOCAL_IP")) primary in
    if lower_is "0" switch
      || lower_is "false" switch
      || lower_is "off" switch
      || lower_is "disabled" switch
    then disabled
    else nncs_config parse_ip primary secondary local

pub record NncsServer : Type 0 where
  pub config : NncsConfig
  pub sockets : List NncsSocket
  pub readers : List NncsSocket
  pub alternate : NncsSocket × NncsSocket

abbrev pub alternate_socket : Bytes → ℕ → NncsSocket
alternate_socket ip index = record {
  ip = ip;
  port = 0;
  server_index = index;
  role = "alternate";
  response_only = true;
  sink = false;
}

abbrev pub regular_socket : Bytes → ℕ → ℕ → String → NncsSocket
regular_socket ip port index role = record {
  ip = ip;
  port = port;
  server_index = index;
  role = role;
  response_only = false;
  sink = false;
}

unfoldable pub sink_sockets : Bytes → List ℕ → List NncsSocket
sink_sockets ip [] = []
sink_sockets ip (port ∷ ports) =
    record {
      ip = ip;
      port = port;
      server_index = 1;
      role = "sink_" ⊕ decimal port;
      response_only = false;
      sink = true;
    }
    ∷ sink_sockets ip ports

-- The sockets in the order in which they are bound.
unfoldable pub all_sockets : NncsConfig → List NncsSocket
all_sockets c =
    alternate_socket c.primary_ip 1
    ∷ alternate_socket c.secondary_ip 2
    ∷ regular_socket c.primary_ip c.primary_port 1 "primary"
    ∷ regular_socket c.primary_ip c.secondary_port 1 "secondary"
    ∷ regular_socket c.secondary_ip c.primary_port 2 "primary"
    ∷ regular_socket c.secondary_ip c.secondary_port 2 "secondary"
    ∷ sink_sockets c.primary_ip c.sink_ports

-- The recorder is taken to be there.
unfoldable pub start_nncs_server : NncsConfig → Option NncsServer
start_nncs_server c =
    if not (is_some (to4 c.primary_ip))
      || not (is_some (to4 c.secondary_ip))
      || not (is_some (to4 c.server_local_ip))
    then none
    else if ip_equal c.primary_ip c.secondary_ip
    then none
    else some (record {
      config = c;
      sockets = all_sockets c;
      readers = keep (λ (s : NncsSocket). not s.response_only) (all_sockets c);
      alternate = (alternate_socket c.primary_ip 1, alternate_socket c.secondary_ip 2);
    })

unfoldable pub parse_nncs_message : Bytes → Option NncsMessage
parse_nncs_message payload =
    if ltb (length payload) 16
    then none
    else some (record {
      message_type = uint32 payload;
      external_port = uint32 (drop 4 payload);
      external_address = uint32 (drop 8 payload);
      local_address = uint32 (drop 12 payload);
    })

-- `uint32` of a signed port
abbrev pub to_uint32 : ℤ → ℕ
to_uint32 (ℤ.pos n) = n % 4294967296
to_uint32 (ℤ.negsuc n) = 4294967295 - n % 4294967296

unfoldable pub build_nncs_response : ℕ → UdpAddr → Bytes → Option Bytes
build_nncs_response message_type remote server_local_ip = elim (to4 remote.ip) [
  | none ↦ none
  | some remote_ip ↦ elim (to4 server_local_ip) [
    | none ↦ none
    | some local_ip ↦ some (
        put_uint32 message_type
        ++ (put_uint32 (to_uint32 remote.port)
            ++ (put_uint32 (uint32 remote_ip) ++ put_uint32 (uint32 local_ip))))
  ]
]

-- The server that answers, and whether from its alternate socket.
pub record Route : Type 0 where
  pub target_server : ℕ
  pub alternate : Bool

unfoldable pub nncs_response_route : ℕ → ℕ → Option Route
nncs_response_route message_type source_server =
    if eqb message_type 1
      || eqb message_type 4
      || eqb message_type 5
      || eqb message_type 101
      || eqb message_type 103
    then some (record { target_server = source_server; alternate = false })
    else if eqb message_type 2
    then some (record { target_server = if eqb source_server 1 then 2 else 1; alternate = true })
    else if eqb message_type 3 || eqb message_type 102
    then some (record { target_server = source_server; alternate = true })
    else none

-- s.alternate[n-1], for a server of number 1 or 2
abbrev pub alternate_of : NncsServer → ℕ → NncsSocket
alternate_of server n = if eqb n 1 then server.alternate.0 else server.alternate.1

-- The socket that a datagram is answered from, and the message to answer.
unfoldable pub reply_socket : NncsServer → NncsSocket → Bytes → Option (NncsSocket × NncsMessage)
reply_socket server socket payload =
    if socket.sink then none else elim (parse_nncs_message payload) [
      | none ↦ none
      | some message ↦ elim (nncs_response_route message.message_type socket.server_index) [
        | none ↦ none
        | some route ↦
            some
              (if route.alternate then alternate_of server route.target_server else socket, message)
      ]
    ]

-- A round of the loop that reads a socket: what is sent, and from which socket.
unfoldable pub handle_datagram :
    NncsServer → NncsSocket → Bytes → UdpAddr → Option (NncsSocket × Bytes)
handle_datagram server socket payload remote = elim (reply_socket server socket payload) [
  | none ↦ none
  | some (from, message) ↦
      elim (build_nncs_response message.message_type remote server.config.server_local_ip) [
        | none ↦ none
        | some response ↦ some (from, response)
      ]
]
