-- ===== src/Net/Udp/Tests.antt =====
-- UDP sockets at concrete numbers.
use monolith.Net.Arp.{bswap16}
use monolith.Net.Udp.{
  Udp, af_inet, ip_port_hashf, is_at, port_loop, udp_bind, udp_register, udp_rx_packet,
  udp_table_get, udp_table_insert, udp_table_size,
}
use monolith.Net.Udp.Binding.{Bound, udp_bind-Outcome}
use monolith.Net.Udp.Lookup.{IsAbsent}
use monolith.Net.Udp.Ports.{port_loop-Unused}
use monolith.Prelude.{
  List, [], arith, false, length-replicate, none, refl, replicate, some, true, ℕ, ◌≡◌, ◌⊎◌,
}
use monolith.Prelude.Chains.{bucket, bucket-replicate, find, push_front}
use monolith.Prelude.Errno.{eaddrinuse}
use monolith.Prelude.Members.{contains}

abbrev no_sockets : Udp
no_sockets = record {
  udp_table = replicate udp_table_size [];
  addr_of = λ _. 0;
  port_of = λ _. 0;
  is_bound = λ _. true;
  next_eph_port = 49152;
}

bucket-no_sockets : (h : ℕ) → bucket no_sockets.udp_table h ≡ []
bucket-no_sockets h = bucket-replicate udp_table_size h

no_sockets-IsAbsent : (s : ℕ) → IsAbsent no_sockets s
unfolding contains
no_sockets-IsAbsent s h = rw (bucket-no_sockets h) refl

-- socket 7 at port 53 of every address
abbrev one_socket : Udp
one_socket = (udp_bind no_sockets 7 false af_inet 0 53).0

delivered : udp_rx_packet one_socket 1234 53 100 ≡ some (7, 72)
unfolding udp_rx_packet udp_table_get find ip_port_hashf is_at udp_bind udp_register
    udp_table_insert push_front
delivered = refl

udp_bind-Outcome_example :
    ((udp_table_get no_sockets 0 53 ≡ none)
      × ((udp_bind no_sockets 7 false af_inet 0 53).1 ≡ none)
      × Bound no_sockets 7 0 53 (udp_bind no_sockets 7 false af_inet 0 53).0)
    ⊎ ((t : ℕ) × (udp_table_get no_sockets 0 53 ≡ some t)
        × ((udp_bind no_sockets 7 false af_inet 0 53).1 ≡ some eaddrinuse)
        × ((a q : ℕ)
            → udp_table_get (udp_bind no_sockets 7 false af_inet 0 53).0 a q
              ≡ udp_table_get no_sockets a q))
udp_bind-Outcome_example =
    udp_bind-Outcome no_sockets 7 0 53 (length-replicate {A = List ℕ} udp_table_size [])
      (no_sockets-IsAbsent 7)

-- socket 7 holds the first ephemeral port (49152 = 0xC000, 192 in network order), the next is free
abbrev one_ephemeral : Udp
one_ephemeral = (udp_bind no_sockets 7 false af_inet 0 192).0

port_loop-Unused_example :
    (port after : ℕ) × (port_loop 2 one_ephemeral 49152 ≡ some (port, after))
    × (udp_table_get one_ephemeral 0 port ≡ none)
unfolding udp_table_get find ip_port_hashf is_at udp_bind udp_register udp_table_insert push_front
    bswap16
port_loop-Unused_example = port_loop-Unused 2 one_ephemeral 49152 1 (omega arith) (omega arith) refl
