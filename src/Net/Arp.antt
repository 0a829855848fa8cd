-- ===== src/Net/Arp.antt =====
-- kernel/net/arp.c: the address table, the table of waiters, and the handling of packets. The mutex
-- makes each access of the tables one step. Addresses are the 32-bit values of the packets.
pub mod Table
pub mod Packets
use mathlib.Core.Option
use monolith.Prelude.{
  List, Option, [], if◌then◌else◌, inl, inr, none, not, set, some, ℕ, ◌%◌, ◌&&◌, ◌*◌, ◌++◌, ◌+◌,
  ◌/◌, ◌==◌, ◌∷◌, ◌⊎◌,
}
use monolith.Prelude.Chains.{bucket, find, push_front}

-- `struct arp_entry`, with the interface's number
pub record ArpEntry : Type 0 where
  pub address : ℕ
  pub htype : ℕ
  pub mac : List ℕ
  pub netdev : ℕ

-- `struct arp_waittable_entry`, with the pids on its wait queue
pub record WaitEntry : Type 0 where
  pub address : ℕ
  pub queue : List ℕ

pub record ArpState : Type 0 where
  pub arp_table : List (List ArpEntry)
  pub arp_waittable : List (List WaitEntry)

abbrev pub buckets : ℕ
buckets = 32

unfoldable pub arp_get_entry : ArpState → ℕ → Option ArpEntry
unfolding find
arp_get_entry s address = find (λ e. e.address == address) (bucket s.arp_table (address % buckets))

-- The chain behind the first waiting entry for the address, with that entry's queue.
unfoldable pub wake_waiters : ℕ → List WaitEntry → Option (List ℕ × List WaitEntry)
wake_waiters address [] = none
wake_waiters address (w ∷ ws) =
    if w.address == address then some (w.queue, ws) else wake_waiters address ws

-- `arp_add_entry`: the state and the tasks that it wakes. The chain of waiters is cut to what
-- follows the entry that was found.
unfoldable pub arp_add_entry : ArpState → ℕ → List ℕ → ℕ → ℕ → ArpState × List ℕ
unfolding push_front wake_waiters
arp_add_entry s address mac htype netdev =
    let hash = address % buckets in
    let entry : ArpEntry = record {
      address = address;
      htype = htype;
      mac = mac;
      netdev = netdev;
    } in
    let table = push_front s.arp_table hash entry in
    elim (wake_waiters address (bucket s.arp_waittable hash)) [
      | none ↦ (record s { arp_table = table }, [])
      | some (queue, rest) ↦
          (record { arp_table = table; arp_waittable = set s.arp_waittable hash rest }, queue)
    ]

-- Puts the task on the queue of the first waiting entry for the address, if there is one.
unfoldable pub join_waiters : ℕ → ℕ → List WaitEntry → Option (List WaitEntry)
join_waiters address task [] = none
join_waiters address task (w ∷ ws) =
    let later = Option.map (λ rest. w ∷ rest) (join_waiters address task ws) in
    if w.address == address then some (record w { queue = w.queue ++ (task ∷ []) } ∷ ws) else later

-- `arp_search` up to its wait: an entry at hand, or the state with the task waiting (a request for
-- the address has been sent)
unfoldable pub arp_search_start : ArpState → ℕ → ℕ → ArpEntry ⊎ ArpState
unfolding arp_get_entry join_waiters push_front
arp_search_start s address task =
    let hash = address % buckets in
    elim (arp_get_entry s address) [
      | some e ↦ inl e
      | none ↦ elim (join_waiters address task (bucket s.arp_waittable hash)) [
        | some chain ↦ inr (record s { arp_waittable = set s.arp_waittable hash chain })
        | none ↦
            let fresh : WaitEntry = record { address = address; queue = task ∷ [] } in
            inr (record s { arp_waittable = push_front s.arp_waittable hash fresh })
      ]
    ]

-- `struct arp_packet`, as it lies in memory
pub record ArpPacket : Type 0 where
  pub htype : ℕ
  pub ptype : ℕ
  pub hlen : ℕ
  pub plen : ℕ
  pub opcode : ℕ
  pub src_hw : List ℕ
  pub src_proto : ℕ
  pub dst_hw : List ℕ
  pub dst_proto : ℕ

-- `__builtin_bswap16`, behind be16_to_native and native_to_be16 (kernel/include/arch/x86_64/cpu.h)
unfoldable pub bswap16 : ℕ → ℕ
bswap16 v = v % 256 * 256 + v / 256 % 256

abbrev pub htype_ethernet : ℕ
htype_ethernet = 1

abbrev pub ptype_ipv4 : ℕ
ptype_ipv4 = 0x0800

abbrev pub opcode_request : ℕ
opcode_request = 1

abbrev pub opcode_reply : ℕ
opcode_reply = 2

-- the fields of `struct netdev` that are read here, and its number
pub record Netdev : Type 0 where
  pub number : ℕ
  pub mac_addr : List ℕ
  pub ip_addr : ℕ

-- the packet that `arp_send_reply` sends
unfoldable pub arp_send_reply : Netdev → ArpPacket → ArpPacket
unfolding bswap16
arp_send_reply netdev packet = record {
  htype = bswap16 htype_ethernet;
  ptype = bswap16 ptype_ipv4;
  hlen = 6;
  plen = 4;
  opcode = bswap16 opcode_reply;
  src_hw = netdev.mac_addr;
  src_proto = netdev.ip_addr;
  dst_hw = packet.src_hw;
  dst_proto = packet.src_proto;
}

-- the state, the tasks that are woken, and the reply that is sent
pub record Received : Type 0 where
  pub state : ArpState
  pub woken : List ℕ
  pub reply : Option ArpPacket

unfoldable pub arp_rx_request : ArpState → Netdev → ArpPacket → Received
unfolding arp_get_entry arp_add_entry arp_send_reply
arp_rx_request s netdev packet =
    let (s', woken) = elim (arp_get_entry s packet.src_proto) as (λ o. ArpState × List ℕ) [
      | none ↦ arp_add_entry s packet.src_proto packet.src_hw htype_ethernet netdev.number
      | some e ↦ (s, [])
    ] in
    record {
      state = s';
      woken = woken;
      reply =
          if not (netdev.ip_addr == 0) && (netdev.ip_addr == packet.dst_proto)
          then some (arp_send_reply netdev packet)
          else none;
    }

unfoldable pub arp_rx_packet : ArpState → Netdev → ArpPacket → Received
unfolding arp_rx_request arp_add_entry bswap16
arp_rx_packet s netdev packet =
    let ignored : Received = record { state = s; woken = []; reply = none } in
    let op = bswap16 packet.opcode in
    if not (bswap16 packet.htype == htype_ethernet)
    then ignored
    else (if not (bswap16 packet.ptype == ptype_ipv4)
        then ignored
        else (if op == opcode_request
            then arp_rx_request s netdev packet
            else (if op == opcode_reply
                then (let (s', woken) =
                      arp_add_entry s packet.src_proto packet.src_hw htype_ethernet netdev.number in
                    record { state = s'; woken = woken; reply = none })
                else ignored)))
