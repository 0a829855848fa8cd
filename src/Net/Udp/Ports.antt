-- ===== src/Net/Udp/Ports.antt =====
-- Ephemeral ports in kernel/net/ipv4/udp.c.
use native.Mathlib.Decide.{ℕ_discrete}
use monolith.Net.Arp.{bswap16}
use monolith.Net.Udp.{Udp, port_loop, udp_table_get}
use monolith.Prelude.{
  Option-cases, ap, arith, inl, inr, none, refl, some, suc, sym, zero, ℕ, ◌%◌, ◌+◌, ◌-◌, ◌<◌, ◌∙◌,
  ◌≡◌,
}
use monolith.Prelude.Words.{u16_mod}

-- The port that comes `i` after `next`, in network order.
abbrev pub port_after : ℕ → ℕ → ℕ
port_after next i = bswap16 ((next + i) % u16_mod)

port_after-next :
    (next i : ℕ) → 0 < i → port_after ((next + 1) % u16_mod) (i - 1) ≡ port_after next i
port_after-next next i h =
    let e : (((next + 1) % u16_mod) + (i - 1)) % u16_mod ≡ (next + i) % u16_mod =
      omega (arith, h) in
    ap bswap16 e

-- The loop of `udp_get_ephemeral_port`, from a port `next` on, when one of the ports that come next
-- is in no wildcard entry of the table: within as many rounds it ends, with a port of which no
-- socket has the wildcard address.
pub port_loop-Unused :
    (fuel : ℕ) (u : Udp) (next i : ℕ)
    → next < u16_mod
    → i < fuel
    → udp_table_get u 0 (port_after next i) ≡ none
    → (port after : ℕ) × (port_loop fuel u next ≡ some (port, after))
      × (udp_table_get u 0 port ≡ none)
unfolding port_loop
port_loop-Unused zero u next i small h unused = absurd (omega arith)
port_loop-Unused (suc fuel) u next i small h unused =
    elim (Option-cases (udp_table_get u 0 (bswap16 next))) [
      | inl now ↦ (bswap16 next, (next + 1) % u16_mod, rw (port_loop, now) refl, now)
      | inr (t, used) ↦ elim (ℕ_discrete i 0) [
        | yes z ↦
            let e : (next + i) % u16_mod ≡ next = omega (arith, z, small) in
            let none_found : udp_table_get u 0 (bswap16 next) ≡ none =
              ap (λ x. udp_table_get u 0 (bswap16 x)) (sym e) ∙ unused in
            absurd (ground (arith, none_found, used))
        | no nz ↦
            let pos : 0 < i = omega (arith, nz) in
            let (port, after, e, found) =
              port_loop-Unused fuel u ((next + 1) % u16_mod) (i - 1) (omega arith)
                (omega (arith, pos, h))
                (ap (udp_table_get u 0) (port_after-next next i pos) ∙ unused) in
            (port, after, rw (port_loop, used) e, found)
      ]
    ]
