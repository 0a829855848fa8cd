-- ===== src/Net/Checksum.antt =====
-- `ip_checksum` of kernel/net/ipv4/ipv4.c, on the 16-bit words of a header, with the bytes of each
-- already in the machine's order.
pub mod Verify
use monolith.Prelude.{List, [], if◌then◌else◌, ltb, ℕ, ◌%◌, ◌+◌, ◌-◌, ◌/◌, ◌∷◌}

-- a 32-bit sum that is folded when it leaves 16 bits
unfoldable pub fold_sum : ℕ → ℕ
fold_sum sum = if ltb 0xFFFF sum then sum / 0x10000 + sum % 0x10000 else sum

unfoldable pub checksum_loop : ℕ → List ℕ → ℕ
unfolding fold_sum
checksum_loop sum [] = sum
checksum_loop sum (w ∷ ws) = checksum_loop (fold_sum (sum + w)) ws

unfoldable pub ip_checksum : List ℕ → ℕ
unfolding checksum_loop
ip_checksum words = 0xFFFF - checksum_loop 0 words % 0x10000
