-- ===== src/Examples/Probes.antt =====
-- The theorems on the NAT check, on a server at two loopback addresses.
use mathlib.Core.List.{Memᴰ}
use mathlib.Core.List.Memᴰ.{head}
use super_mario_bros_wonder.Base.{
  refl, ◌≡◌, ◌≢◌, ◌⊎◌, arith, false, some, [], ◌∷◌, pos, keep, not, All,
}
use super_mario_bros_wonder.Bytes.{Bytes, IsByte, UdpAddr, uint32, to4, put_uint32}
use super_mario_bros_wonder.Nncs.{
  NncsConfig, NncsMessage, NncsSocket, NncsServer, start_nncs_server, all_sockets, alternate_socket,
  regular_socket, handle_datagram, parse_nncs_message,
}
use super_mario_bros_wonder.Nncs.Sockets.{handle_datagram-FromAddress}
use super_mario_bros_wonder.Nncs.Replies.{handle_datagram-parse_nncs_message}

abbrev config : NncsConfig
config = record {
  primary_ip = 127 ∷ 0 ∷ 0 ∷ 1 ∷ [];
  secondary_ip = 127 ∷ 0 ∷ 0 ∷ 2 ∷ [];
  server_local_ip = 127 ∷ 0 ∷ 0 ∷ 1 ∷ [];
  primary_port = 10025;
  secondary_port = 10125;
  sink_ports = 33334 ∷ 33335 ∷ [];
}

abbrev server : NncsServer
unfolding all_sockets
server = record {
  config = config;
  sockets = all_sockets config;
  readers = keep (λ (s : NncsSocket). not s.response_only) (all_sockets config);
  alternate = (alternate_socket config.primary_ip 1, alternate_socket config.secondary_ip 2);
}

started : start_nncs_server config ≡ some server
unfolding start_nncs_server to4 super_mario_bros_wonder.Nncs.ip_equal
    super_mario_bros_wonder.Bytes.to16 server
started = refl

abbrev primary : NncsSocket
primary = regular_socket config.primary_ip 10025 1 "primary"

-- A probe of type 2, from the port 7 of the first address.
abbrev probe : Bytes
probe = 0 ∷ 0 ∷ 0 ∷ 2 ∷ 0 ∷ 0 ∷ 0 ∷ 0 ∷ 0 ∷ 0 ∷ 0 ∷ 0 ∷ 0 ∷ 0 ∷ 0 ∷ 0 ∷ []

abbrev peer : UdpAddr
peer = record { ip = 127 ∷ 0 ∷ 0 ∷ 1 ∷ []; port = pos 7 }

abbrev reply : Bytes
reply = 0 ∷ 0 ∷ 0 ∷ 2 ∷ 0 ∷ 0 ∷ 0 ∷ 7 ∷ 127 ∷ 0 ∷ 0 ∷ 1 ∷ 127 ∷ 0 ∷ 0 ∷ 1 ∷ []

probe_bytes : All IsByte probe
probe_bytes = (
  omega arith,
  (
    omega arith,
    (
      omega arith,
      (
        omega arith,
        (
          omega arith,
          (
            omega arith,
            (
              omega arith,
              (
                omega arith,
                (
                  omega arith,
                  (
                    omega arith,
                    (
                      omega arith,
                      (omega arith, (omega arith, (omega arith, (omega arith, (omega arith, tt))))),
                    ),
                  ),
                ),
              ),
            ),
          ),
        ),
      ),
    ),
  ),
)

address_bytes : All IsByte peer.ip
address_bytes = (omega arith, (omega arith, (omega arith, (omega arith, tt))))

is_address : to4 peer.ip ≡ some peer.ip
unfolding to4
is_address = refl

is_read : Memᴰ primary server.readers
unfolding all_sockets
is_read = head refl

probed :
    handle_datagram server primary probe peer ≡ some (alternate_socket config.secondary_ip 2, reply)
unfolding handle_datagram super_mario_bros_wonder.Nncs.reply_socket parse_nncs_message
    super_mario_bros_wonder.Nncs.nncs_response_route uint32
    super_mario_bros_wonder.Nncs.build_nncs_response to4 server put_uint32
probed = refl

handle_datagram-FromAddress_example :
    (((uint32 probe ≡ 2) × (config.secondary_ip ≢ config.primary_ip))
      ⊎ ((uint32 probe ≢ 2) × (config.secondary_ip ≡ config.primary_ip)))
    × (false ≡ false)
handle_datagram-FromAddress_example =
    handle_datagram-FromAddress config server primary (alternate_socket config.secondary_ip 2) probe
      reply peer started is_read probed

handle_datagram-parse_nncs_message_example :
    (m : NncsMessage) × (parse_nncs_message reply ≡ some m)
    × (m.message_type ≡ uint32 probe)
    × (m.external_port ≡ 7)
    × (put_uint32 m.external_address ≡ peer.ip)
    × (put_uint32 m.local_address ≡ config.server_local_ip)
unfolding server
handle_datagram-parse_nncs_message_example =
    handle_datagram-parse_nncs_message server primary (alternate_socket config.secondary_ip 2) probe
      peer.ip reply peer.ip config.server_local_ip 7 probe_bytes address_bytes address_bytes
      is_address is_address (omega arith) probed
