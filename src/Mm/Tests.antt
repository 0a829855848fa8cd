-- ===== src/Mm/Tests.antt =====
-- Runs of kernel/mm at concrete states, and its theorems at them.
use monolith.Mm.MemoryMap.{
  Region, RegionType, allocated, has_room, memmap_reserve, reserved, usable,
}
use monolith.Mm.MemoryMap.Reserve.{Reserved, memmap_reserve-Reserved}
use monolith.Mm.PageFault.{vm_page_fault, zero_filled}
use monolith.Mm.PageFault.Permission.{Served, vm_page_fault-Served}
use monolith.Mm.Pmm.{Pmm, allocate, free, free_pages_count, mark_range_free, used_pages_count}
use monolith.Mm.Pmm.Allocate.{IsValid, Outcome, allocate-Outcome, free-allocate, page_bit-free}
use monolith.Mm.Pmm.Counts.{
  Counted, IsCounted, allocate-Counted, free-IsCounted, free_count, mark_range_free-IsCounted,
}
use monolith.Mm.Pmm.Mark.{Marked}
use monolith.Mm.Pmm.Pages.{Words64, page_bit}
use monolith.Mm.VmSpace.{
  VmObject, VmSpace, check_loop, check_range, find_free_range, get_range, take_range,
}
use monolith.Mm.VmSpace.Check.{Decided, IsOrdered, check_range-Decided, get_range-check_range}
use monolith.Mm.VmSpace.Find.{Placed, find_free_range-Placed, find_free_range-ignores_end}
use monolith.Mm.VmSpace.Replace.{get_range-replaced}
use monolith.Prelude.{
  List, [], arith, false, none, refl, some, suc, true, zero, ℕ, ◌*◌, ◌+◌, ◌-◌, ◌^◌, ◌∷◌, ◌≡◌, ◌≤◌,
}
use monolith.Prelude.Words.{add64, align_up, sub64}

-- three free pages, 1, 2 and 64, in a machine of 128 pages
abbrev three_free : Pmm
three_free = record { bitmap = 6 ∷ 1 ∷ []; available = 3; used = 4 }

three_free-words : Words64 (6 ∷ 1 ∷ [])
three_free-words = elim [ zero ↦ omega arith | suc zero ↦ omega arith | suc (suc k) ↦ omega arith ]

three_free-IsValid : IsValid three_free
three_free-IsValid = record { words = three_free-words; small = omega arith }

three_free-IsCounted : IsCounted three_free
unfolding free_count
three_free-IsCounted = record { valid = three_free-IsValid; counted = refl; total = omega arith }

allocate_runs :
    allocate three_free ≡ some (record { bitmap = 4 ∷ 1 ∷ []; available = 2; used = 5 }, 4096)
unfolding allocate sub64 add64
allocate_runs = refl

mark_runs :
    mark_range_free (record { bitmap = 0 ∷ 0 ∷ []; available = 0; used = 0 }) 4096 (4096 * 128)
    ≡ some (record { bitmap = (2 ^ 64 - 2) ∷ (2 ^ 64 - 1) ∷ []; available = 127; used = 0 })
unfolding mark_range_free sub64 add64
mark_runs = refl

allocate-Outcome_example : Outcome three_free (allocate three_free)
allocate-Outcome_example = allocate-Outcome three_free three_free-IsValid

freed_bit_runs : page_bit (free three_free (5 * 4096)).bitmap 5 ≡ 1
freed_bit_runs = page_bit-free three_free (5 * 4096) 5 (omega arith)

free-allocate_runs :
    page_bit (free (record { bitmap = 4 ∷ 1 ∷ []; available = 2; used = 5 }) 4096).bitmap 1 ≡ 1
free-allocate_runs =
    free-allocate three_free (record { bitmap = 4 ∷ 1 ∷ []; available = 2; used = 5 }) 4096 1
      three_free-IsValid allocate_runs

allocate-Counted_example : Counted three_free (allocate three_free)
allocate-Counted_example = allocate-Counted three_free three_free-IsCounted

free_counts_run :
    IsCounted (free three_free 40960)
    × (free_pages_count (free three_free 40960) ≡ 4)
    × (used_pages_count (free three_free 40960) + 1 ≡ 4)
unfolding free_pages_count used_pages_count
free_counts_run =
    free-IsCounted three_free 40960 three_free-IsCounted (omega arith) refl (omega arith)

mark_range_free-IsCounted_runs :
    (q : Pmm) × (mark_range_free three_free (3 * 4096) (5 * 4096) ≡ some q)
    × Marked (6 ∷ 1 ∷ []) 3 2 q.bitmap
    × IsCounted q
mark_range_free-IsCounted_runs =
    mark_range_free-IsCounted three_free (3 * 4096) (5 * 4096) three_free-IsCounted (omega arith)
      (omega arith) (omega arith)
      (elim [
        | zero ↦ λ _. refl
        | suc zero ↦ λ h. cc
        | suc (suc zero) ↦ λ h. cc
        | suc (suc (suc zero)) ↦ λ _. refl
        | suc (suc (suc (suc zero))) ↦ λ _. refl
        | suc (suc (suc (suc (suc k)))) ↦ λ h. ground arith
      ])
      (omega arith)

-- two ranges of one page, with a free page between them, in a space of 16 pages
abbrev page_at : ℕ → VmObject
page_at base = record { base = base; len = 4096; prot = 3; flags = 0; file = none; offset = 0 }

abbrev two_pages : List VmObject
two_pages = page_at 4096 ∷ page_at 12288 ∷ []

abbrev low_space : VmSpace
low_space = record { objects = two_pages; start_address = 4096; end_address = 69632 }

abbrev full_space : VmSpace
full_space = record { objects = page_at 4096 ∷ []; start_address = 4096; end_address = 8192 }

low_space-IsOrdered : IsOrdered low_space
low_space-IsOrdered = record {
  start_pos = omega arith;
  sorted = (omega arith, omega arith, omega arith, (omega arith, omega arith, omega arith, tt));
}

abbrev filled_space : VmSpace
filled_space = record low_space { objects = page_at 4096 ∷ page_at 8192 ∷ page_at 12288 ∷ [] }

check_range_runs : check_range low_space (page_at 8192) false ≡ some filled_space
unfolding check_range
check_range_runs = refl

overlap_refused : check_range low_space (page_at 9000) false ≡ none
unfolding check_range
overlap_refused = refl

find_free_range_runs : find_free_range low_space (page_at 0) ≡ some (filled_space, 8192)
unfolding find_free_range
find_free_range_runs = refl

unmap_runs : take_range two_pages 12288 ≡ some (page_at 12288, page_at 4096 ∷ [])
unfolding take_range
unmap_runs = refl

check_range-Decided_example :
    Decided low_space (page_at 8192) (check_range low_space (page_at 8192) false)
check_range-Decided_example =
    check_range-Decided low_space (page_at 8192) low_space-IsOrdered (omega arith) (omega arith)

get_range-check_range_runs : get_range filled_space.objects 8200 ≡ some (page_at 8192)
get_range-check_range_runs =
    get_range-check_range low_space filled_space (page_at 8192) 8200 low_space-IsOrdered
      (omega arith) (omega arith) check_range_runs

find_free_range-Placed_example :
    (space' : VmSpace) × (b : ℕ) × (find_free_range low_space (page_at 0) ≡ some (space', b))
    × Placed (page_at 0) 4096 two_pages b space'.objects
    × IsOrdered space'
find_free_range-Placed_example =
    find_free_range-Placed low_space (page_at 0) 16384 low_space-IsOrdered (omega arith)
      (omega arith) (omega arith, (omega arith, tt)) (omega arith)

find_free_range-ignores_end_runs :
    (space' : VmSpace) × (b : ℕ) × (find_free_range full_space (page_at 0) ≡ some (space', b))
    × (8192 ≤ b + 4096)
find_free_range-ignores_end_runs =
    find_free_range-ignores_end full_space (page_at 0) 8192
      (record { start_pos = omega arith; sorted = (omega arith, omega arith, omega arith, tt) })
      (omega arith) (omega arith) (omega arith, tt) (omega arith) (λ b f. ground arith)

abbrev four_pages : List VmObject
four_pages = record (page_at 4096) { len = 16384 } ∷ []

get_range-replaced_runs :
    (ys : List VmObject) × (check_loop (page_at 12288) true four_pages ≡ some ys)
    × (get_range ys 4096 ≡ none)
unfolding get_range
get_range-replaced_runs =
    get_range-replaced (page_at 12288) (record (page_at 4096) { len = 16384 }) 4096 4096 four_pages
      (omega arith, omega arith, omega arith, tt) (omega arith) (omega arith) refl (omega arith)
      (omega arith)

abbrev region_of : ℕ → ℕ → RegionType → Region
region_of begin end kind = record { begin = begin; end = end; kind = kind }

abbrev two_regions : List Region
two_regions = region_of 0 4096 reserved ∷ region_of 4096 65536 usable ∷ []

reserve_runs :
    memmap_reserve two_regions 5000
    ≡ some (
      region_of 0 4096 reserved
          ∷ region_of 12288 65536 usable
          ∷ region_of 4096 12288 allocated
          ∷ [],
      0xffff800000001000,
    )
unfolding memmap_reserve has_room align_up
reserve_runs = refl

memmap_reserve-Reserved_example : Reserved 5000 two_regions (memmap_reserve two_regions 5000)
memmap_reserve-Reserved_example =
    memmap_reserve-Reserved two_regions 5000 (omega arith, (omega arith, tt))

abbrev cow_page : VmObject
cow_page = record (page_at 0x20000) { prot = 11; flags = 2 }

fault_runs :
    vm_page_fault true (cow_page ∷ []) 0x20010 7 true true (λ r. false) ≡ zero_filled cow_page
unfolding vm_page_fault
fault_runs = refl

vm_page_fault-Served_example :
    Served
      (cow_page ∷ [])
      0x20010
      7
      false
      true
      (λ r. false)
      true
      (vm_page_fault true (cow_page ∷ []) 0x20010 7 false true (λ r. false))
vm_page_fault-Served_example =
    vm_page_fault-Served (cow_page ∷ []) 0x20010 7 false true (λ r. false) true
