-- ===== src/Net/Udp/Lookup.antt =====
-- The table of kernel/net/ipv4/udp.c as a map from an address and a port to a socket.
use mathlib.Core.Path.{subst}
use native.Mathlib.Decide.{ℕ_discrete}
use monolith.Net.Udp.{
  Udp, ip_port_hashf, is_at, udp_table_get, udp_table_insert, udp_table_size, with_address,
}
use monolith.Prelude.{
  Bool, Bool-cases, List, [], ap, arith, false, if◌then◌else◌, inl, inr, length, refl, some, true,
  ℕ, ◌&&◌, ◌<◌, ◌==◌, ◌∙◌, ◌∷◌, ◌≡◌,
}
use monolith.Prelude.Chains.{bucket, find, find-push_front_ne, find-push_front_self, push_front}
use monolith.Prelude.Members.{contains}

-- the socket is in no chain
abbrev pub NotIn : ℕ → List ℕ → Type 0
NotIn s xs = contains s xs ≡ false

abbrev pub IsAbsent : Udp → ℕ → Type 0
IsAbsent u s = (h : ℕ) → NotIn s (bucket u.udp_table h)

hash-lt : (addr port : ℕ) → ip_port_hashf addr port < udp_table_size
unfolding ip_port_hashf
hash-lt addr port = omega arith

-- a change to a socket that is in no chain is not seen
find-absent :
    (u : Udp) (s a p addr port : ℕ) (xs : List ℕ)
    → NotIn s xs
    → find (is_at (with_address u s a p) addr port) xs ≡ find (is_at u addr port) xs
unfolding find contains is_at
find-absent u s a p addr port [] h = refl
find-absent u s a p addr port (x ∷ xs) h =
    let other : (x == s) ≡ false = ground (arith, h) in
    rw other (
      ap (λ o. if (u.addr_of x == addr) && (u.port_of x == port) then some x else o)
        (find-absent u s a p addr port xs (ground (arith, h))))

pub get-with_address :
    (u : Udp) (s a p addr port : ℕ)
    → IsAbsent u s
    → udp_table_get (with_address u s a p) addr port ≡ udp_table_get u addr port
unfolding udp_table_get
get-with_address u s a p addr port h =
    find-absent u s a p addr port (bucket u.udp_table (ip_port_hashf addr port))
      (h (ip_port_hashf addr port))

at-hash :
    (u : Udp) (s addr port : ℕ)
    → is_at u addr port s ≡ true
    → ip_port_hashf (u.addr_of s) (u.port_of s) ≡ ip_port_hashf addr port
unfolding is_at
at-hash u s addr port it =
    let a : u.addr_of s ≡ addr = ground (arith, it) in
    let q : u.port_of s ≡ port = ground (arith, it) in
    ap (λ x. ip_port_hashf x (u.port_of s)) a ∙ ap (ip_port_hashf addr) q

-- After `udp_table_insert` of a socket under its own address and port, `udp_table_get` finds it
-- there, and under every other address and port what it found before.
pub get-insert :
    (u : Udp) (s addr port : ℕ)
    → length u.udp_table ≡ udp_table_size
    → udp_table_get (udp_table_insert u s (u.addr_of s) (u.port_of s)) addr port
      ≡ (if is_at u addr port s then some s else udp_table_get u addr port)
unfolding udp_table_get udp_table_insert is_at
get-insert u s addr port size =
    let h0 : ℕ = ip_port_hashf (u.addr_of s) (u.port_of s) in
    let k : ℕ = ip_port_hashf addr port in
    let p : ℕ → Bool = is_at u addr port in
    let low : h0 < length u.udp_table = omega (arith, size, hash-lt (u.addr_of s) (u.port_of s)) in
    elim (ℕ_discrete h0 k) [
      | yes e ↦
          subst
            (λ j.
              find p (bucket (push_front u.udp_table h0 s) j)
              ≡ (if p s then some s else find p (bucket u.udp_table j)))
            e (find-push_front_self p u.udp_table h0 s low)
      | no ne ↦ find-push_front_ne p u.udp_table h0 k s ne ∙ (elim (Bool-cases (p s)) [
        | inl it ↦ absurd (ne (at-hash u s addr port it))
        | inr it ↦ rw it refl
      ])
    ]
