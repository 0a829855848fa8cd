-- ===== src/Mm/MemoryMap.antt =====
-- kernel/mm/memory_map.c: reserving memory in the boot memory map, before any allocator works.
pub mod Reserve
use mathlib.Core.Option
use monolith.Prelude.{
  Bool, List, Option, [], false, if◌then◌else◌, leb, length, ltb, none, some, true, ℕ, ◌&&◌, ◌++◌,
  ◌-◌, ◌==◌, ◌∷◌,
}
use monolith.Prelude.Words.{add64, align_up, page_size}

pub data RegionType : Type 0 where
  usable acpi_tables acpi_nvs reserved allocated : RegionType

-- `mem_region_t`
pub record Region : Type 0 where
  pub begin : ℕ
  pub end : ℕ
  pub kind : RegionType

abbrev pub max_memmap_regions : ℕ
max_memmap_regions = 64

-- VM_DMAP_BASE (kernel/include/mm/vmm.h)
abbrev pub dmap_base : ℕ
dmap_base = 0xffff800000000000

abbrev pub is_usable : RegionType → Bool
is_usable usable = true
is_usable acpi_tables = false
is_usable acpi_nvs = false
is_usable reserved = false
is_usable allocated = false

-- the tests of the loop of `memmap_reserve`
unfoldable pub has_room : ℕ → Region → Bool
has_room size r = is_usable r.kind && (ltb r.begin r.end && leb size (r.end - r.begin))

-- The first region with room is cut; the result has its old and its new begin.
unfoldable pub reserve_loop : ℕ → List Region → Option (List Region × ℕ × ℕ)
unfolding has_room align_up add64
reserve_loop size [] = none
reserve_loop size (r ∷ rs) =
    let later =
      Option.map (λ (x : List Region × ℕ × ℕ). (r ∷ x.0, x.1, x.2)) (reserve_loop size rs) in
    let cut = align_up (add64 r.begin size) page_size in
    if has_room size r then some (record r { begin = cut } ∷ rs, r.begin, cut) else later

-- `memmap_reserve`: the map and the address, or `none` for nullptr
unfoldable pub memmap_reserve : List Region → ℕ → Option (List Region × ℕ)
unfolding reserve_loop add64
memmap_reserve regions size = elim (reserve_loop size regions) [
  | none ↦ none
  | some (rs, begin, cut) ↦
      if length regions == max_memmap_regions
      then none
      else some (
        rs ++ (record { begin = begin; end = cut; kind = allocated } ∷ []),
        add64 begin dmap_base,
      )
]
