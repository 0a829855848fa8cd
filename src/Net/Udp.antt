-- ===== src/Net/Udp.antt =====
-- kernel/net/ipv4/udp.c: the table of UDP sockets by local address and port, and what is sent and
-- received through it. A socket is named by a number. Addresses and ports are in network order, as
-- the C keeps them. A section under the table's lock is one step. Building and sending the IP packet
-- is not in this part: `udp_sendto` gives what it hands to `ipv4_tx_packet`.
pub mod Lookup
pub mod Binding
pub mod Ports
mod Tests
use mathlib.Core.Option
use monolith.Net.Arp.{bswap16}
use monolith.Prelude.{
  Bool, List, Option, [], false, if◌then◌else◌, length, ltb, none, not, set, some, suc, true, zero,
  ℕ, ◌%◌, ◌&&◌, ◌*◌, ◌+◌, ◌-◌, ◌==◌, ◌∷◌,
}
use monolith.Prelude.Chains.{bucket, find, push_front}
use monolith.Prelude.Errno.{Errno, eaddrinuse, efault, einval}
use monolith.Prelude.Words.{u16_mod, u32_mod}

-- `udp_table`; `addr` and `port` of each socket's `ipv4_sdata`; `socket->bound`; `next_eph_port`
pub record Udp : Type 0 where
  pub udp_table : List (List ℕ)
  pub addr_of : ℕ → ℕ
  pub port_of : ℕ → ℕ
  pub is_bound : ℕ → Bool
  pub next_eph_port : ℕ

abbrev pub udp_table_size : ℕ
udp_table_size = 256

abbrev pub af_inet : ℕ
af_inet = 2

unfoldable pub ip_port_hashf : ℕ → ℕ → ℕ
ip_port_hashf addr port = (((17 * 5 + addr) % u32_mod * 5 + port) % u32_mod) % udp_table_size

-- the test of the walk of `udp_table_get`
unfoldable pub is_at : Udp → ℕ → ℕ → ℕ → Bool
is_at u addr port s = (u.addr_of s == addr) && (u.port_of s == port)

unfoldable pub udp_table_get : Udp → ℕ → ℕ → Option ℕ
udp_table_get u addr port = find (is_at u addr port) (bucket u.udp_table (ip_port_hashf addr port))

unfoldable pub udp_table_insert : Udp → ℕ → ℕ → ℕ → Udp
udp_table_insert u s addr port = record u {
  udp_table = push_front u.udp_table (ip_port_hashf addr port) s;
}

unfoldable pub unlink_socket : ℕ → List ℕ → List ℕ
unlink_socket s [] = []
unlink_socket s (x ∷ xs) = if x == s then xs else x ∷ unlink_socket s xs

unfoldable pub udp_table_remove : Udp → ℕ → ℕ → ℕ → Udp
unfolding unlink_socket
udp_table_remove u s addr port =
    let h = ip_port_hashf addr port in
    record u { udp_table = set u.udp_table h (unlink_socket s (bucket u.udp_table h)) }

-- the writes to `priv_data->addr` and `priv_data->port`
abbrev pub with_address : Udp → ℕ → ℕ → ℕ → Udp
with_address u s addr port = record u {
  addr_of = λ x. if x == s then addr else u.addr_of x;
  port_of = λ x. if x == s then port else u.port_of x;
}

-- `udp_register`, of a socket with its address
unfoldable pub udp_register : Udp → ℕ → Udp × Bool
udp_register u s = elim (udp_table_get u (u.addr_of s) (u.port_of s)) [
  | some _ ↦ (u, false)
  | none ↦ (udp_table_insert u s (u.addr_of s) (u.port_of s), true)
]

-- `udp_bind`; `short` says whether the address given is shorter than a `sockaddr_in`
unfoldable pub udp_bind : Udp → ℕ → Bool → ℕ → ℕ → ℕ → Udp × Option Errno
udp_bind u s short family addr port =
    let u1 = with_address u s addr port in
    let (u2, added) = udp_register u1 s in
    if short
    then (u, some efault)
    else if not (family == af_inet)
    then (u, some einval)
    else if added
    then (u2, none)
    else (
      record (with_address u2 s addr 0) { is_bound = λ x. if x == s then false else u2.is_bound x },
      some eaddrinuse,
    )

-- The loop of `udp_get_ephemeral_port`, on fuel: the port, and `next_eph_port` afterwards.
unfoldable pub port_loop : ℕ → Udp → ℕ → Option (ℕ × ℕ)
port_loop zero u next = none
port_loop (suc fuel) u next =
    let nport = bswap16 next in
    let after = (next + 1) % u16_mod in
    let again = port_loop fuel u after in
    elim (udp_table_get u 0 nport) [ none ↦ some (nport, after) | some _ ↦ again ]

unfoldable pub udp_get_ephemeral_port : ℕ → Udp → Option (ℕ × Udp)
unfolding port_loop
udp_get_ephemeral_port fuel u =
    Option.map (λ (x : ℕ × ℕ). (x.0, record u { next_eph_port = x.1 }))
      (port_loop fuel u u.next_eph_port)

-- `udp_release`, up to the freeing of the socket's data
unfoldable pub udp_release : Udp → ℕ → Udp
udp_release u s =
    if not (u.is_bound s) then u else elim (udp_table_get u (u.addr_of s) (u.port_of s)) [
      | none ↦ u
      | some _ ↦ udp_table_remove u s (u.addr_of s) (u.port_of s)
    ]

-- The part of `udp_sendto` that gives a socket without a port one. `none`: the fuel of the loop ran
-- out.
unfoldable pub ensure_port : ℕ → Udp → ℕ → Option (Udp × Option Errno)
unfolding udp_get_ephemeral_port
ensure_port fuel u s =
    let chosen : Option (Udp × Option Errno) = elim (udp_get_ephemeral_port fuel u) [
      | none ↦ none
      | some (port, u1) ↦
          let u2 = with_address u1 s 0 port in
          if port == 0
          then some (u2, some eaddrinuse)
          else some (udp_table_insert u2 s 0 port, none)
    ] in
    if bswap16 (u.port_of s) == 0 then chosen else some (u, none)

-- what `udp_rx_packet` hands to `socket_rx_packet`: the socket, and how many bytes of the `length`
-- bytes are payload. The two headers are 20 and 8 bytes.
unfoldable pub udp_rx_packet : Udp → ℕ → ℕ → ℕ → Option (ℕ × ℕ)
udp_rx_packet u dst_addr dst_port length =
    let wildcard = Option.map (λ (s : ℕ). (s, length - 28)) (udp_table_get u 0 dst_port) in
    if ltb length 28 then none else elim (udp_table_get u dst_addr dst_port) [
      | some s ↦ some (s, length - 28)
      | none ↦ wildcard
    ]
