-- ===== src/Prelude/Words.antt =====
-- Machine-width arithmetic (kernel/include/types.h): wrap-around at 64 bits and alignment.
use monolith.Prelude.{arith, bit_and, refl, ℕ, ◌%◌, ◌*◌, ◌+◌, ◌-◌, ◌/◌, ◌<◌, ◌^◌, ◌≡◌, ◌≤◌}
use monolith.Prelude.Bits.{and_double, and_ones, bit_not}

abbrev pub u16_mod : ℕ
u16_mod = 2 ^ 16

abbrev pub u32_mod : ℕ
u32_mod = 2 ^ 32

abbrev pub u64_mod : ℕ
u64_mod = 2 ^ 64

-- CONFIG_PAGE_SIZE
abbrev pub page_size : ℕ
page_size = 4096

unfoldable pub add64 : ℕ → ℕ → ℕ
add64 a b = (a + b) % u64_mod

unfoldable pub sub64 : ℕ → ℕ → ℕ
sub64 a b = (a + u64_mod - b) % u64_mod

unfoldable pub align_down : ℕ → ℕ → ℕ
align_down value alignment = bit_and value (bit_not 64 (alignment - 1))

-- `value + alignment - 1` wraps.
unfoldable pub align_up : ℕ → ℕ → ℕ
align_up value alignment = bit_and ((value + alignment - 1) % u64_mod) (bit_not 64 (alignment - 1))

mask_page : (w : ℕ) → w < u64_mod → bit_and w (2 ^ 64 - 4096) ≡ w / 4096 * 4096
mask_page w h = omega (
  arith,
  and_double w (w / 2) (2 ^ 63 - 2048) (2 ^ 64 - 4096) (omega arith) refl,
  and_double (w / 2) (w / 4) (2 ^ 62 - 1024) (2 ^ 63 - 2048) (omega arith) refl,
  and_double (w / 4) (w / 8) (2 ^ 61 - 512) (2 ^ 62 - 1024) (omega arith) refl,
  and_double (w / 8) (w / 16) (2 ^ 60 - 256) (2 ^ 61 - 512) (omega arith) refl,
  and_double (w / 16) (w / 32) (2 ^ 59 - 128) (2 ^ 60 - 256) (omega arith) refl,
  and_double (w / 32) (w / 64) (2 ^ 58 - 64) (2 ^ 59 - 128) (omega arith) refl,
  and_double (w / 64) (w / 128) (2 ^ 57 - 32) (2 ^ 58 - 64) (omega arith) refl,
  and_double (w / 128) (w / 256) (2 ^ 56 - 16) (2 ^ 57 - 32) (omega arith) refl,
  and_double (w / 256) (w / 512) (2 ^ 55 - 8) (2 ^ 56 - 16) (omega arith) refl,
  and_double (w / 512) (w / 1024) (2 ^ 54 - 4) (2 ^ 55 - 8) (omega arith) refl,
  and_double (w / 1024) (w / 2048) (2 ^ 53 - 2) (2 ^ 54 - 4) (omega arith) refl,
  and_double (w / 2048) (w / 4096) (2 ^ 52 - 1) (2 ^ 53 - 2) (omega arith) refl,
  and_ones 52 (w / 4096) (omega arith),
)

-- Rounding down to a page is division by the page size.
pub align_down-page : (v : ℕ) → v < u64_mod → align_down v page_size ≡ v / page_size * page_size
unfolding align_down
align_down-page v h = mask_page v h

-- Rounding up to a page, where it does not wrap.
pub align_up-page :
    (v : ℕ)
    → v + page_size ≤ u64_mod
    → align_up v page_size ≡ (v + (page_size - 1)) / page_size * page_size
unfolding align_up
align_up-page v h =
    let e : (v + page_size - 1) % u64_mod ≡ v + (page_size - 1) = omega arith in
    rw e (mask_page (v + (page_size - 1)) (omega arith))
