-- ===== src/Mm/Calls/Tests.antt =====
-- `sys_mmap` and `sys_munmap` at concrete numbers.
use monolith.Mm.Calls.{
  MapState, MmapResult, info_of, map_range, mapped, new_range, place_range, sys_mmap, sys_munmap,
  vm_space_map, vm_validate_ptr,
}
use monolith.Mm.Calls.Mapping.{IsAnonymous, Mapped, asked, sys_mmap-Mapped}
use monolith.Mm.Calls.Unmapping.{munmap-mmap}
use monolith.Mm.PageFault.{has_bit, prot_user}
use monolith.Mm.VmSpace.{VmObject, check_range, find_base, find_free_range}
use monolith.Mm.VmSpace.Check.{IsOrdered}
use monolith.Prelude.{
  [], arith, bit_and, bit_or, false, none, refl, ℕ, ◌*◌, ◌+◌, ◌-◌, ◌/◌, ◌∷◌, ◌≡◌,
}
use monolith.Prelude.Words.{align_down, align_up, page_size}

abbrev empty_space : MapState
empty_space = record {
  space = record { objects = []; start_address = 0x10000; end_address = 0x7fffffffffff };
  refs = λ _. 1;
}

empty_space-IsOrdered : IsOrdered empty_space.space
empty_space-IsOrdered = record { start_pos = omega arith; sorted = tt }

-- PROT_READ and PROT_WRITE, MAP_PRIVATE and MAP_ANONYMOUS
abbrev two_pages : MapState × MmapResult
two_pages = sys_mmap (λ _. none) (λ _. false) empty_space 0 5000 3 34 none 0

abbrev one_range : VmObject
one_range = record { base = 0x10000; len = 8192; prot = 11; flags = 2; file = none; offset = 0 }

private-IsAnonymous : IsAnonymous 34 0
unfolding has_bit
private-IsAnonymous = record {
  is_private = refl;
  not_shared = refl;
  anonymous = refl;
  not_fixed = refl;
  aligned = refl;
}

two_pages_runs : (two_pages.1 ≡ mapped 0x10000) × (two_pages.0.space.objects ≡ one_range ∷ [])
unfolding sys_mmap vm_space_map map_range place_range new_range info_of find_free_range find_base
    check_range has_bit align_up align_down
two_pages_runs = (refl, refl)

sys_mmap-Mapped_example :
    (st' : MapState) × (b : ℕ) × (sys_mmap (λ _. none) (λ _. false) empty_space 0 5000 3 34 none 0
      ≡ (st', mapped b))
    × ((asked 0 5000 3 34).len ≡ (5000 + (page_size - 1)) / page_size * page_size)
    × ((asked 0 5000 3 34).prot ≡ bit_or (bit_and 3 7) prot_user)
    × Mapped empty_space (asked 0 5000 3 34) st' b
sys_mmap-Mapped_example =
    sys_mmap-Mapped (λ _. none) (λ _. false) empty_space 0 5000 3 34 0 0x10000 private-IsAnonymous
      empty_space-IsOrdered tt (omega arith) (omega arith) (omega arith) (omega arith)

munmap-mmap_example :
    ((sys_munmap two_pages.0 0x10000 5000).1 ≡ none)
    × ((sys_munmap two_pages.0 0x10000 5000).0.space.objects ≡ [])
    × ((sys_munmap two_pages.0 0x10000 5000).0.refs ≡ empty_space.refs)
unfolding sys_mmap vm_space_map map_range place_range new_range info_of find_free_range find_base
    check_range has_bit align_up align_down vm_validate_ptr
munmap-mmap_example =
    munmap-mmap (λ _. none) (λ _. false) empty_space two_pages.0 0 5000 3 34 0 0x10000 0x10000
      private-IsAnonymous empty_space-IsOrdered tt (omega arith) (omega arith) (omega arith) refl
      refl refl
