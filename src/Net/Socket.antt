-- ===== src/Net/Socket.antt =====
-- kernel/net/socket.c: sockets over the operations of their domain, which are arguments here, and
-- the queue of received datagrams. The mutex of the queue makes each access one step.
pub mod Queue
use monolith.Prelude.{
  Bool, List, Option, [], false, if◌then◌else◌, length, ltb, none, some, take, true, ℕ, ◌++◌, ◌==◌,
  ◌∷◌,
}
use monolith.Prelude.Errno.{Result, eafnosupport, einval, enotsup, err, ok}

-- `struct recv_queue_entry` with the bytes that are kept behind it
pub record RecvEntry : Type 0 where
  pub source : List ℕ
  pub addrlen : ℕ
  pub payload : List ℕ

-- `struct socket`, the fields that are not operations or links
pub record Socket : Type 0 where
  pub bound : Bool
  pub recv_queue : List RecvEntry

-- `list_for_each_entry` over the registered domains, with each domain's number and its `create`
unfoldable pub find_domain :
    List (ℕ × (ℕ → ℕ → Result (Unit {0}))) → ℕ → Option (ℕ → ℕ → Result (Unit {0}))
find_domain [] domain = none
find_domain ((d, create) ∷ rest) domain =
    if d == domain then some create else find_domain rest domain

unfoldable pub socket_create : List (ℕ × (ℕ → ℕ → Result (Unit {0}))) → ℕ → ℕ → ℕ → Result Socket
unfolding find_domain
socket_create domains domain type protocol = elim (find_domain domains domain) [
  | none ↦ err eafnosupport
  | some create ↦ elim (create type protocol) [
    | err e ↦ err e
    | ok u ↦ ok (record { bound = false; recv_queue = [] })
  ]
]

-- `socket_bind`; the last argument is the domain's `bind`, if it has one, which may change the
-- socket: udp_bind of kernel/net/udp.c clears `bound` where the port is taken.
unfoldable pub socket_bind :
    Socket → Option (Socket → Socket × Result (Unit {0})) → Socket × Result (Unit {0})
socket_bind sock bind =
    if sock.bound
    then (sock, err einval)
    else elim bind [ none ↦ (sock, err enotsup) | some f ↦ f (record sock { bound = true }) ]

unfoldable pub socket_rx_packet : Socket → RecvEntry → Socket
socket_rx_packet sock entry = record sock { recv_queue = sock.recv_queue ++ (entry ∷ []) }

-- the bytes, the sender's address and its length
pub record Datagram : Type 0 where
  pub bytes : List ℕ
  pub src_addr : List ℕ
  pub src_len : ℕ

pub data RecvResult : Type 0 where
  waits interrupted : RecvResult
  received : Socket → Datagram → RecvResult

-- A round of `socket_recvfrom` for at most `len` bytes: it registers and sleeps, ends with -EINTR, or
-- takes the first datagram off the queue.
unfoldable pub socket_recvfrom : Bool → Socket → ℕ → RecvResult
socket_recvfrom pending sock len = elim sock.recv_queue [
  | [] ↦ if pending then interrupted else waits
  | entry ∷ rest ↦
      let readlen = if ltb len (length entry.payload) then len else length entry.payload in
      received (record sock { recv_queue = rest })
        (record {
          bytes = take readlen entry.payload;
          src_addr = entry.source;
          src_len = entry.addrlen;
        })
]
