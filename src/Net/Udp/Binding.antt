-- ===== src/Net/Udp/Binding.antt =====
-- Binding UDP sockets in kernel/net/ipv4/udp.c, and where datagrams go then.
use mathlib.Core.Path.{subst}
use monolith.Net.Udp.{
  Udp, af_inet, is_at, udp_bind, udp_register, udp_rx_packet, udp_table_get, udp_table_insert,
  udp_table_size, with_address,
}
use monolith.Net.Udp.Lookup.{IsAbsent, get-insert, get-with_address}
use monolith.Prelude.{
  ==-self, Bool, Option-cases, ap, arith, false, if◌then◌else◌, inl, inr, length, ltb, none, refl,
  some, true, ℕ, ◌&&◌, ◌-◌, ◌==◌, ◌∙◌, ◌≡◌, ◌≤◌, ◌⊎◌,
}
use monolith.Prelude.Errno.{eaddrinuse}

abbrev pub same_key : ℕ → ℕ → ℕ → ℕ → Bool
same_key addr port a q = (addr == a) && (port == q)

-- the socket is registered, and datagrams reach it
pub record Bound (u : Udp) (s addr port : ℕ) (u' : Udp) : Type 0 where
  pub found :
      (a q : ℕ)
      → udp_table_get u' a q ≡ (if same_key addr port a q then some s else udp_table_get u a q)
  pub receives : (len : ℕ) → 28 ≤ len → udp_rx_packet u' addr port len ≡ some (s, len - 28)
  pub receives_any :
      addr ≡ 0
      → (dst len : ℕ) → 28 ≤ len
      → udp_table_get u' dst port ≡ none
      → udp_rx_packet u' dst port len ≡ some (s, len - 28)

found-receives :
    (u' : Udp) (s addr port len : ℕ)
    → udp_table_get u' addr port ≡ some s
    → 28 ≤ len
    → udp_rx_packet u' addr port len ≡ some (s, len - 28)
unfolding udp_rx_packet
found-receives u' s addr port len g h =
    let e : ltb len 28 ≡ false = ground arith in rw (udp_rx_packet, e, g) refl

any-receives :
    (u' : Udp) (s port dst len : ℕ)
    → udp_table_get u' 0 port ≡ some s
    → udp_table_get u' dst port ≡ none
    → 28 ≤ len
    → udp_rx_packet u' dst port len ≡ some (s, len - 28)
unfolding udp_rx_packet
any-receives u' s port dst len g n h =
    let e : ltb len 28 ≡ false = ground arith in rw (udp_rx_packet, e, n, g) refl

register_unused :
    (u : Udp) (s : ℕ)
    → udp_table_get u (u.addr_of s) (u.port_of s) ≡ none
    → udp_register u s ≡ (udp_table_insert u s (u.addr_of s) (u.port_of s), true)
unfolding udp_register
register_unused u s h = rw (udp_register, h) refl

register_used :
    (u : Udp) (s t : ℕ)
    → udp_table_get u (u.addr_of s) (u.port_of s) ≡ some t
    → udp_register u s ≡ (u, false)
unfolding udp_register
register_used u s t h = rw (udp_register, h) refl

module _ (u : Udp) (s addr port : ℕ) (size : length u.udp_table ≡ udp_table_size)
    (absent : IsAbsent u s) where
  abbrev addressed : Udp
  addressed = with_address u s addr port

  -- the table with the socket put in
  abbrev inserted : Udp
  inserted = udp_table_insert addressed s (addressed.addr_of s) (addressed.port_of s)

  inserted-found :
      (a q : ℕ)
      → udp_table_get inserted a q
        ≡ (if same_key addr port a q then some s else udp_table_get u a q)
  unfolding is_at
  inserted-found a q =
      get-insert addressed s a q size
      ∙ rw (==-self s) (
          ap (λ o. if same_key addr port a q then some s else o)
            (get-with_address u s addr port a q absent))

  inserted-Bound : Bound u s addr port inserted
  inserted-Bound =
      let own : udp_table_get inserted addr port ≡ some s =
        inserted-found addr port ∙ rw (==-self addr, ==-self port) refl in
      record {
        found = inserted-found;
        receives = λ len h. found-receives inserted s addr port len own h;
        receives_any = λ z dst len h n.
            any-receives inserted s port dst len
              (subst (λ a. udp_table_get inserted a port ≡ some s) z own) n h;
      }

  -- the state when the address is taken
  abbrev refused : Udp
  refused = record (with_address addressed s addr 0) {
    is_bound = λ x. if x == s then false else u.is_bound x;
  }

  refused-found : (a q : ℕ) → udp_table_get refused a q ≡ udp_table_get u a q
  unfolding udp_table_get is_at
  refused-found a q =
      get-with_address addressed s addr 0 a q absent ∙ get-with_address u s addr port a q absent

  own_key :
      udp_table_get addressed (addressed.addr_of s) (addressed.port_of s)
      ≡ udp_table_get u addr port
  own_key = rw (==-self s) (get-with_address u s addr port addr port absent)

  -- Binding a socket that is not in the table, to an address and a port of the right family. When no
  -- socket has them, the socket gets them: the table has it there and is otherwise unchanged, and
  -- datagrams to that address and port go to it, and if the address is the wildcard also those to
  -- every address that no other socket has with that port. When one has them, the call fails with
  -- EADDRINUSE, and the table finds what it found before.
  pub udp_bind-Outcome :
      ((udp_table_get u addr port ≡ none)
        × ((udp_bind u s false af_inet addr port).1 ≡ none)
        × Bound u s addr port (udp_bind u s false af_inet addr port).0)
      ⊎ ((t : ℕ) × (udp_table_get u addr port ≡ some t)
          × ((udp_bind u s false af_inet addr port).1 ≡ some eaddrinuse)
          × ((a q : ℕ)
              → udp_table_get (udp_bind u s false af_inet addr port).0 a q ≡ udp_table_get u a q))
  unfolding udp_bind
  udp_bind-Outcome = elim (Option-cases (udp_table_get u addr port)) [
    | inl unused ↦
        let e : udp_register addressed s ≡ (inserted, true) =
          register_unused addressed s (own_key ∙ unused) in
        inl (unused, rw (udp_bind, e) refl, rw (udp_bind, e) inserted-Bound)
    | inr (t, used) ↦
        let e : udp_register addressed s ≡ (addressed, false) =
          register_used addressed s t (own_key ∙ used) in
        inr (t, used, rw (udp_bind, e) refl, rw (udp_bind, e) refused-found)
  ]
