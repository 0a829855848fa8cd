-- ===== src/Mm/Pmm.antt =====
-- kernel/mm/pmm.c: the physical page allocator, a bitmap with a set bit for each free page. Its
-- spinlock makes each call one step, so a call is a function on the state.
pub mod Pages
pub mod Mark
pub mod Allocate
pub mod Counts
use monolith.Prelude.{
  List, Option, [], bit_and, bit_or, get_or, if◌then◌else◌, leb, none, set, some, suc, zero, ℕ, ◌%◌,
  ◌&&◌, ◌*◌, ◌+◌, ◌-◌, ◌/◌, ◌==◌, ◌^◌, ◌∷◌,
}
use monolith.Prelude.Bits.{bit_not}
use monolith.Prelude.Ctz.{ctz}
use monolith.Prelude.Words.{add64, page_size, sub64, u64_mod}

-- pmm_bitmap (with its length), physmem_available and physmem_used
pub record Pmm : Type 0 where
  pub bitmap : List ℕ
  pub available : ℕ
  pub used : ℕ

-- `1ull << k`, and `~0ull`
abbrev pub all_ones : ℕ
all_ones = 2 ^ 64 - 1

-- The loop of `pmm_mark_range_free`; `none` means that the fuel ran out.
unfoldable pub mark_loop : ℕ → List ℕ → ℕ → ℕ → Option (List ℕ)
mark_loop zero bitmap rlen rbegin = none
mark_loop (suc fuel) bitmap rlen rbegin =
    let bmp_offset = rbegin / page_size / 64 in
    let bit_offset = rbegin / page_size % 64 in
    let word =
      mark_loop fuel (set bitmap bmp_offset all_ones) (rlen - 64 * page_size)
        (add64 rbegin (64 * page_size)) in
    let page =
      mark_loop fuel (set bitmap bmp_offset (bit_or (get_or bitmap bmp_offset 0) (2 ^ bit_offset)))
        (rlen - page_size) (add64 rbegin page_size) in
    if leb page_size rlen
    then (if leb (64 * page_size) rlen && (bit_offset == 0) then word else page)
    else some bitmap

unfoldable pub mark_range_free : Pmm → ℕ → ℕ → Option Pmm
unfolding mark_loop
mark_range_free p begin end =
    let rlen = sub64 end begin in
    elim (mark_loop (suc (rlen / page_size)) p.bitmap rlen begin) [
      | none ↦ none
      | some b ↦ some (record p { bitmap = b; available = add64 p.available (rlen / page_size) })
    ]

-- The scan of `pmm_allocate` from word i on: the first word that is not zero.
unfoldable pub find_word : List ℕ → ℕ → Option (ℕ × ℕ)
find_word [] i = none
find_word (w ∷ ws) i = if w == 0 then find_word ws (i + 1) else some (i, w)

-- `pmm_allocate`; `none` is the panic for lack of memory.
unfoldable pub allocate : Pmm → Option (Pmm × ℕ)
unfolding find_word ctz
allocate p = elim (find_word p.bitmap 0) [
  | none ↦ none
  | some (i, w) ↦
      let index = ctz 64 w in
      some (
        record p {
          bitmap = set p.bitmap i (bit_and w (bit_not 64 (2 ^ index)));
          available = sub64 p.available 1;
          used = add64 p.used 1;
        },
        (i * 64 + index) * page_size % u64_mod,
      )
]

unfoldable pub free : Pmm → ℕ → Pmm
free p addr =
    let bmp_offset = addr / page_size / 64 in
    let bit_offset = addr / page_size % 64 in
    record p {
      bitmap = set p.bitmap bmp_offset (bit_or (get_or p.bitmap bmp_offset 0) (2 ^ bit_offset));
      available = add64 p.available 1;
      used = sub64 p.used 1;
    }

-- `pmm_free_pages_count` and `pmm_used_pages_count`
unfoldable pub free_pages_count : Pmm → ℕ
free_pages_count p = p.available

unfoldable pub used_pages_count : Pmm → ℕ
used_pages_count p = p.used
