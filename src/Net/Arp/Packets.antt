-- ===== src/Net/Arp/Packets.antt =====
-- What kernel/net/arp.c does with a packet of any kind.
use native.Mathlib.Decide.{ℕ_discrete}
use monolith.Net.Arp.{
  ArpEntry, ArpPacket, ArpState, Netdev, Received, arp_add_entry, arp_get_entry, arp_rx_packet,
  arp_rx_request, arp_send_reply, bswap16, htype_ethernet, opcode_reply, opcode_request, ptype_ipv4,
}
use monolith.Net.Arp.Table.{IsTable, arp_get_entry-add, entry_of}
use monolith.Prelude.{
  &&_false, Bool, Bool-cases, List, Option-cases, [], arith, false, if◌then◌else◌, inl, inr, none,
  not, refl, some, true, ℕ, ◌&&◌, ◌<◌, ◌==◌, ◌^◌, ◌||◌, ◌≡◌,
}

-- the 16-bit fields of a packet
pub record IsPacket (p : ArpPacket) : Type 0 where
  pub htype : p.htype < 2 ^ 16
  pub ptype : p.ptype < 2 ^ 16
  pub opcode : p.opcode < 2 ^ 16

-- a packet for Ethernet and IPv4, by the values its fields have in memory
abbrev pub is_ipv4 : ArpPacket → Bool
is_ipv4 p = (p.htype == 0x0100) && (p.ptype == 0x0008)

abbrev pub is_request : ArpPacket → Bool
is_request p = is_ipv4 p && (p.opcode == 0x0100)

abbrev pub is_reply : ArpPacket → Bool
is_reply p = is_ipv4 p && (p.opcode == 0x0200)

unfoldable pub is_known : ArpState → ℕ → Bool
is_known s address = elim (arp_get_entry s address) [ none ↦ false | some e ↦ true ]

bswap16-== : (v k : ℕ) → v < 2 ^ 16 → k < 2 ^ 16 → (bswap16 v == k) ≡ (v == bswap16 k)
unfolding bswap16
bswap16-== v k hv hk = ground arith

sender_entry : Netdev → ArpPacket → ArpEntry
sender_entry netdev p = entry_of p.src_proto p.src_hw htype_ethernet netdev.number

abbrev reply_learned : ArpState → Netdev → ArpPacket → Received
reply_learned s netdev p =
    let (s', woken) = arp_add_entry s p.src_proto p.src_hw htype_ethernet netdev.number in
    record { state = s'; woken = woken; reply = none }

request-lookup :
    (s : ArpState) (netdev : Netdev) (p : ArpPacket) (address : ℕ)
    → IsTable s
    → arp_get_entry (arp_rx_request s netdev p).state address ≡ (
        if not (is_known s p.src_proto) && (p.src_proto == address)
        then some (entry_of p.src_proto p.src_hw htype_ethernet netdev.number)
        else arp_get_entry s address)
unfolding arp_rx_request is_known
request-lookup s netdev p address t = elim (Option-cases (arp_get_entry s p.src_proto)) [
  | inl z ↦
      rw (arp_rx_request, is_known, z)
        (arp_get_entry-add s p.src_proto p.src_hw htype_ethernet netdev.number address t)
  | inr (e, z) ↦ rw (arp_rx_request, is_known, z) refl
]

pub is_ipv4-of :
    (p : ArpPacket)
    → IsPacket p
    → ((bswap16 p.htype == htype_ethernet) ≡ (p.htype == 0x0100))
      × ((bswap16 p.ptype == ptype_ipv4) ≡ (p.ptype == 0x0008))
      × ((bswap16 p.opcode == opcode_request) ≡ (p.opcode == 0x0100))
      × ((bswap16 p.opcode == opcode_reply) ≡ (p.opcode == 0x0200))
unfolding bswap16
is_ipv4-of p w = (
  bswap16-== p.htype htype_ethernet w.htype (omega arith),
  bswap16-== p.ptype ptype_ipv4 w.ptype (omega arith),
  bswap16-== p.opcode opcode_request w.opcode (omega arith),
  bswap16-== p.opcode opcode_reply w.opcode (omega arith),
)

by_kind {ℓ} :
    {A : Type ℓ} (a b c d : Bool) (x y z : A)
    → (if not a then z else (if not b then z else (if c then x else (if d then y else z))))
      ≡ (if (a && b) && c then x else (if (a && b) && d then y else z))
by_kind true true c d x y z = refl
by_kind true false c d x y z = refl
by_kind false b c d x y z = refl

arp_rx_packet-by_kind :
    (s : ArpState) (netdev : Netdev) (p : ArpPacket)
    → IsPacket p
    → arp_rx_packet s netdev p ≡ (
        if is_request p
        then arp_rx_request s netdev p
        else (if is_reply p
            then reply_learned s netdev p
            else record { state = s; woken = []; reply = none }))
unfolding arp_rx_packet
arp_rx_packet-by_kind s netdev p w =
    let (eth, ip, req, rep) = is_ipv4-of p w in
    rw (arp_rx_packet, eth, ip, req, rep)
      (by_kind (p.htype == 0x0100) (p.ptype == 0x0008) (p.opcode == 0x0100) (p.opcode == 0x0200) _ _
        _)

reply_not_request : (p : ArpPacket) → is_request p ≡ true → is_reply p ≡ false
reply_not_request p e = ground arith

-- After a packet with 16-bit fields the sender's address is looked up as the sender if the packet is
-- an ARP reply, or a request from an address that is not known yet; in all other cases, and for all
-- other addresses, the lookup is what it was.
pub arp_rx_packet-lookup :
    (s : ArpState) (netdev : Netdev) (p : ArpPacket) (address : ℕ)
    → IsTable s
    → IsPacket p
    → arp_get_entry (arp_rx_packet s netdev p).state address ≡ (
        if (is_reply p || (is_request p && not (is_known s p.src_proto)))
          && (p.src_proto == address)
        then some (entry_of p.src_proto p.src_hw htype_ethernet netdev.number)
        else arp_get_entry s address)
unfolding arp_rx_packet
arp_rx_packet-lookup s netdev p address t w =
    rw (arp_rx_packet-by_kind s netdev p w) (elim (Bool-cases (is_request p)) [
      | inl e ↦ rw e (rw (reply_not_request p e) (request-lookup s netdev p address t))
      | inr e ↦ elim (Bool-cases (is_reply p)) [
        | inl r ↦
            rw e (
              rw r
                (arp_get_entry-add s p.src_proto p.src_hw htype_ethernet netdev.number address t))
        | inr r ↦ rw e (rw r refl)
      ]
    ])

-- the reply to a packet from an address and its hardware address, by the values in memory
abbrev pub reply_from : ArpPacket → ℕ → List ℕ → ArpPacket
reply_from p address mac = record {
  htype = 0x0100;
  ptype = 0x0008;
  hlen = 6;
  plen = 4;
  opcode = 0x0200;
  src_hw = mac;
  src_proto = address;
  dst_hw = p.src_hw;
  dst_proto = p.src_proto;
}

request-reply :
    (s : ArpState) (netdev : Netdev) (p : ArpPacket)
    → (arp_rx_request s netdev p).reply ≡ (
        if not (p.dst_proto == 0) && (p.dst_proto == netdev.ip_addr)
        then some (reply_from p p.dst_proto netdev.mac_addr)
        else none)
unfolding arp_rx_request arp_send_reply bswap16
request-reply s netdev p = elim (ℕ_discrete netdev.ip_addr p.dst_proto) [
  | yes q ↦ rw (arp_rx_request, arp_send_reply, q) refl
  | no n ↦
      let a : (netdev.ip_addr == p.dst_proto) ≡ false = ground arith in
      let b : (p.dst_proto == netdev.ip_addr) ≡ false = ground arith in
      rw (arp_rx_request, a, b, &&_false, &&_false) refl
]

-- A packet with 16-bit fields is answered exactly if it is a request for the address of an interface
-- that has one. The reply then goes to the sender and tells the interface's hardware address.
pub arp_rx_packet-reply :
    (s : ArpState) (netdev : Netdev) (p : ArpPacket)
    → IsPacket p
    → (arp_rx_packet s netdev p).reply ≡ (
        if is_request p && not (p.dst_proto == 0) && (p.dst_proto == netdev.ip_addr)
        then some (reply_from p p.dst_proto netdev.mac_addr)
        else none)
arp_rx_packet-reply s netdev p w =
    rw (arp_rx_packet-by_kind s netdev p w) (elim (Bool-cases (is_request p)) [
      | inl e ↦ rw e (request-reply s netdev p)
      | inr e ↦ elim (Bool-cases (is_reply p)) [
        | inl r ↦ rw e (rw r refl)
        | inr r ↦ rw e (rw r refl)
      ]
    ])
