-- ===== src/Shared/Ports.antt =====
-- shared/src/find_available_port.rs and find_my_ip_address.rs, and the search for a port of
-- server/src/impls/webrtc/server_socket.rs. What the operating system, the address parsers and the
-- crate local_ipaddress answer is a parameter.
pub mod Laws
use naia_socket.Base.{
  ℕ, zero, suc, ◌+◌, ◌-◌, Bool, true, false, Option, none, some, List, [], if◌then◌else◌,
}

pub data IpAddr : Type 0 where
  v4 : ℕ → IpAddr
  v6 : ℕ → IpAddr

-- A socket address as the two variants of `port_is_available` build it.
pub data SocketAddr : Type 0 where
  v4_addr : ℕ → ℕ → SocketAddr
  v6_addr : ℕ → ℕ → ℕ → ℕ → SocketAddr

-- `(start..start + count).find(test)`
unfoldable pub find : (ℕ → Bool) → ℕ → ℕ → Option ℕ
find test start zero = none
find test start (suc count) =
    let rest = find test (start + 1) count in if test start then some start else rest

abbrev pub is_some {ℓ} : {A : Type ℓ} → Option A → Bool
is_some none = false
is_some (some a) = true

-- `UdpSocket::bind`, and `local_addr` of a bound socket with its port; `none` is an error.
pub record Binder : Type 1 where
  pub UdpSocket : Type 0
  pub bind : SocketAddr → Option UdpSocket
  pub local_port : UdpSocket → Option ℕ

-- An address with a port, as `port_is_available` builds it.
unfoldable pub socket_address : IpAddr → ℕ → SocketAddr
socket_address (v4 a) port = v4_addr a port
socket_address (v6 a) port = v6_addr a port 0 0

module _ (N : Binder) where
  unfoldable pub test_bind_udp : SocketAddr → Option ℕ
  test_bind_udp addr = elim (N.bind addr) [ none ↦ none | some socket ↦ N.local_port socket ]

  unfoldable pub port_is_available : IpAddr → ℕ → Bool
  port_is_available ip_addr port = is_some (test_bind_udp (socket_address ip_addr port))

  unfoldable pub find_available_port : IpAddr → Option ℕ
  find_available_port ip_addr = find (port_is_available ip_addr) 1025 (65535 - 1025)

-- `get_available_port` of the WebRTC server: `bind` says whether the address can be bound.
unfoldable pub get_available_port : (ℕ → Bool) → Option ℕ
get_available_port bind = find bind 8000 (9000 - 8000)

-- `get` is `local_ipaddress::get`, a text by its bytes; the two parsers are those of the standard
-- library.
unfoldable pub find_my_ip_address :
    Option (List ℕ) → (List ℕ → Option ℕ) → (List ℕ → Option ℕ) → Option IpAddr
find_my_ip_address get parse_v4 parse_v6 =
    let ip : List ℕ = elim get [ none ↦ [] | some s ↦ s ] in
    elim (parse_v4 ip) [
      | some addr ↦ some (v4 addr)
      | none ↦ elim (parse_v6 ip) [ some addr ↦ some (v6 addr) | none ↦ none ]
    ]
