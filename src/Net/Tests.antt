-- ===== src/Net/Tests.antt =====
-- Runs of kernel/net at concrete tables and packets, and its theorems at them.
use monolith.Net.Arp.{
  ArpPacket, ArpState, Netdev, arp_add_entry, arp_get_entry, arp_rx_packet, arp_search_start,
  htype_ethernet,
}
use monolith.Net.Arp.Packets.{
  IsPacket, arp_rx_packet-lookup, arp_rx_packet-reply, is_known, reply_from,
}
use monolith.Net.Arp.Table.{
  IsTable, Searched, arp_get_entry-add, arp_search_start-Searched, entry_of,
}
use monolith.Net.Checksum.{ip_checksum}
use monolith.Net.Checksum.Verify.{ip_checksum-verifies}
use monolith.Net.Route.{RouteEntry, ip_route_get}
use monolith.Net.Route.Best.{Choice, ip_route_get-Choice}
use monolith.Net.Socket.{RecvEntry, Socket, socket_bind, socket_create}
use monolith.Net.Socket.Queue.{cut_all, read_all, receive-in_order, receive_all, socket_bind-once}
use monolith.Prelude.{List, [], arith, false, refl, replicate, set, some, true, ℕ, ◌++◌, ◌∷◌, ◌≡◌}
use monolith.Prelude.Errno.{Result, eaddrinuse, einval, err, ok}

abbrev default_route : RouteEntry
default_route = record { device = 0; dest = 0; gateway = 7; mask = 0; metric = 1 }

abbrev local_route : RouteEntry
local_route = record { device = 0; dest = 0x0a00; gateway = 0; mask = 0xff00; metric = 2 }

ip_route_get-Choice_runs :
    Choice 0x0a05
      (default_route ∷ local_route ∷ [])
      (ip_route_get (default_route ∷ local_route ∷ []) 0x0a05)
ip_route_get-Choice_runs = ip_route_get-Choice (default_route ∷ local_route ∷ []) 0x0a05

-- tables of which only the chain 5 is not empty: task 9 waits for the address 37
abbrev one_waits : ArpState
one_waits = record {
  arp_table = replicate 32 [];
  arp_waittable = set (replicate 32 []) 5 (record { address = 37; queue = 9 ∷ [] } ∷ []);
}

one_waits-IsTable : IsTable one_waits
one_waits-IsTable = record { entries = refl; waiters = refl }

abbrev some_mac : List ℕ
some_mac = 2 ∷ 0 ∷ 0 ∷ 0 ∷ 0 ∷ 1 ∷ []

lookup_runs :
    arp_get_entry (arp_add_entry one_waits 37 some_mac 1 0).0 37 ≡ some (entry_of 37 some_mac 1 0)
lookup_runs = arp_get_entry-add one_waits 37 some_mac 1 0 37 one_waits-IsTable

arp_search_start-Searched_runs : Searched one_waits 37 8 (arp_search_start one_waits 37 8)
arp_search_start-Searched_runs = arp_search_start-Searched one_waits 37 8 one_waits-IsTable

abbrev card : Netdev
card = record { number = 0; mac_addr = some_mac; ip_addr = 69 }

abbrev request : ArpPacket
request = record {
  htype = 0x0100;
  ptype = 0x0008;
  hlen = 6;
  plen = 4;
  opcode = 0x0100;
  src_hw = some_mac;
  src_proto = 37;
  dst_hw = [];
  dst_proto = 69;
}

request-IsPacket : IsPacket request
request-IsPacket = record { htype = omega arith; ptype = omega arith; opcode = omega arith }

arp_rx_packet-lookup_example :
    arp_get_entry (arp_rx_packet one_waits card request).state 37
    ≡ some (entry_of 37 some_mac htype_ethernet 0)
unfolding is_known arp_get_entry
arp_rx_packet-lookup_example =
    arp_rx_packet-lookup one_waits card request 37 one_waits-IsTable request-IsPacket

arp_rx_packet-reply_runs :
    (arp_rx_packet one_waits card request).reply ≡ some (reply_from request 69 some_mac)
arp_rx_packet-reply_runs = arp_rx_packet-reply one_waits card request request-IsPacket

abbrev header_front : List ℕ
header_front = 0x4500 ∷ 0x0054 ∷ 0x0001 ∷ 0x0000 ∷ 0x4001 ∷ []

abbrev header_back : List ℕ
header_back = 0x0a00 ∷ 0x0002 ∷ 0x0a00 ∷ 0x0001 ∷ []

checksum_runs : ip_checksum (header_front ++ (0 ∷ header_back)) ≡ 0x66a6
unfolding ip_checksum
checksum_runs = refl

ip_checksum-verifies_example :
    ip_checksum (header_front ++ (ip_checksum (header_front ++ (0 ∷ header_back)) ∷ header_back))
    ≡ 0
ip_checksum-verifies_example =
    ip_checksum-verifies header_front header_back
      (omega arith, (omega arith, (omega arith, (omega arith, (omega arith, tt)))))
      (omega arith, (omega arith, (omega arith, (omega arith, tt))))

abbrev entry_of_bytes : List ℕ → RecvEntry
entry_of_bytes payload = record { source = 2 ∷ 0 ∷ []; addrlen = 16; payload = payload }

abbrev fresh_socket : Socket
fresh_socket = record { bound = false; recv_queue = [] }

create_runs : socket_create ((2, λ type protocol. ok tt) ∷ []) 2 3 1 ≡ ok fresh_socket
unfolding socket_create
create_runs = refl

receive-in_order_example :
    read_all 2
      (receive_all fresh_socket (entry_of_bytes (1 ∷ 2 ∷ 3 ∷ []) ∷ entry_of_bytes [] ∷ []))
      2
    ≡ some (cut_all 2 (entry_of_bytes (1 ∷ 2 ∷ 3 ∷ []) ∷ entry_of_bytes [] ∷ []))
receive-in_order_example =
    receive-in_order fresh_socket (entry_of_bytes (1 ∷ 2 ∷ 3 ∷ []) ∷ entry_of_bytes [] ∷ []) 2 refl

-- a domain that refuses and leaves the flag, as `udp_bind` does for a wrong family
abbrev wrong_family : Socket → Socket × Result (Unit {0})
wrong_family sock = (sock, err einval)

-- a domain that refuses and clears the flag, as `udp_bind` does for a port that is taken
abbrev port_taken : Socket → Socket × Result (Unit {0})
port_taken sock = (record sock { bound = false }, err eaddrinuse)

bind_runs :
    (socket_bind fresh_socket (some wrong_family)
      ≡ (record fresh_socket { bound = true }, err einval))
    × (socket_bind (record fresh_socket { bound = true }) (some port_taken)
        ≡ (record fresh_socket { bound = true }, err einval))
bind_runs =
    socket_bind-once fresh_socket (record fresh_socket { bound = true }) (err einval) wrong_family
      (some port_taken) refl refl refl

bind_again_runs : socket_bind fresh_socket (some port_taken) ≡ (fresh_socket, err eaddrinuse)
unfolding socket_bind
bind_again_runs = refl
