-- ===== src/Mm/Calls/Mapping.antt =====
-- `sys_mmap` of kernel/mm/vm_syscall.c, of memory at an address that the kernel chooses.
use monolith.Mm.Calls.{
  MapState, MappingInfo, count_file, flag_device, flag_replace, info_of, map_anonymous, map_fixed,
  map_private, map_range, map_shared, mapped, new_range, place_range, sys_mmap, vm_space_map,
}
use monolith.Mm.PageFault.{flag_file, has_bit, prot_user, prot_write}
use monolith.Mm.VmSpace.{VmObject, VmSpace, find_free_range, get_range}
use monolith.Mm.VmSpace.Check.{IsOrdered}
use monolith.Mm.VmSpace.Find.{AllBelow, find_free_range-Placed, placed_at}
use monolith.Mm.VmSpace.Ranges.{Insert, covers, get_range-Insert}
use monolith.Prelude.{
  Bool, Bool-cases, Option, ap, arith, bit_and, bit_or, false, if◌then◌else◌, inl, inr, none, not,
  refl, some, true, ℕ, ◌%◌, ◌*◌, ◌+◌, ◌-◌, ◌/◌, ◌<◌, ◌==◌, ◌∙◌, ◌≡◌, ◌≤◌,
}
use monolith.Prelude.Words.{align_up-page, page_size, u32_mod, u64_mod}

-- the object of the mapping before it has its place
abbrev pub asked : ℕ → ℕ → ℕ → ℕ → VmObject
asked addr size prot flags = new_range (info_of addr size prot flags 0 0 0)

-- the arguments of an anonymous, private mapping at any address
pub record IsAnonymous (flags offset : ℕ) : Type 0 where
  pub is_private : has_bit flags map_private ≡ true
  pub not_shared : has_bit flags map_shared ≡ false
  pub anonymous : has_bit flags map_anonymous ≡ true
  pub not_fixed : has_bit flags map_fixed ≡ false
  pub aligned : has_bit offset 0xfff ≡ false

place_anywhere :
    (st : MapState) (range : VmObject) (space' : VmSpace) (b : ℕ)
    → has_bit range.flags flag_replace ≡ false
    → find_free_range st.space range ≡ some (space', b)
    → place_range st st range false ≡ (record st { space = space' }, b)
unfolding place_range
place_anywhere st range space' b r e = rw (place_range, r, e) refl

map_anywhere :
    (st : MapState) (info : MappingInfo) (space' : VmSpace) (b : ℕ)
    → (info.virt_base == 0) ≡ true
    → has_bit info.flags flag_file ≡ false
    → has_bit (new_range info).flags flag_replace ≡ false
    → find_free_range st.space (new_range info) ≡ some (space', b)
    → map_range st info ≡ (record st { space = space' }, b)
unfolding map_range
map_anywhere st info space' b z f r e =
    ap
      (λ c.
        place_range st (if c then count_file st info.fd (λ n. (n + 1) % u32_mod) else st)
          (new_range info) (not (info.virt_base == 0)))
      f
    ∙ ap (λ c. place_range st st (new_range info) (not c)) z
    ∙ place_anywhere st (new_range info) space' b r e

no_replace :
    (addr size prot flags : ℕ)
    → has_bit flags map_fixed ≡ false
    → has_bit (asked addr size prot flags).flags flag_replace ≡ false
unfolding new_range info_of has_bit
no_replace addr size prot flags h =
    rw h (elim (Bool-cases (has_bit (bit_or (bit_and prot 7) prot_user) prot_write)) [
      | inl w ↦ rw w refl
      | inr w ↦ rw w refl
    ])

no_address :
    (addr size prot flags : ℕ)
    → has_bit flags map_fixed ≡ false
    → ((info_of addr size prot flags 0 0 0).virt_base == 0) ≡ true
unfolding info_of
no_address addr size prot flags h = rw h refl

pub info_of-no_file :
    (addr size prot flags : ℕ)
    → has_bit flags map_fixed ≡ false
    → has_bit (info_of addr size prot flags 0 0 0).flags flag_file ≡ false
unfolding info_of has_bit
info_of-no_file addr size prot flags h = rw h refl

no_device :
    (addr size prot flags : ℕ)
    → has_bit flags map_fixed ≡ false
    → has_bit (info_of addr size prot flags 0 0 0).flags flag_device ≡ false
unfolding info_of has_bit
no_device addr size prot flags h = rw h refl

-- Without a device and a physical base there is no panic.
pub vm_space_map-map_range :
    (st : MapState) (info : MappingInfo)
    → has_bit info.flags flag_device ≡ false
    → (info.phys_base == 0) ≡ true
    → vm_space_map st info ≡ some (map_range st info)
unfolding vm_space_map
vm_space_map-map_range st info d p = rw (vm_space_map, d, p) refl

-- where the mapping is, and what is unchanged
pub record Mapped (st : MapState) (range : VmObject) (st' : MapState) (b : ℕ) : Type 0 where
  pub ordered : IsOrdered st'.space
  pub above : st.space.start_address ≤ b
  pub same_refs : st'.refs ≡ st.refs
  pub inserted : Insert (placed_at range b) st.space.objects st'.space.objects
  pub found :
      (addr : ℕ)
      → get_range st'.space.objects addr ≡ (
          if covers (placed_at range b) addr
          then some (placed_at range b)
          else get_range st.space.objects addr)

asked_len :
    (addr size prot flags : ℕ)
    → size + page_size ≤ u64_mod
    → (asked addr size prot flags).len ≡ (size + (page_size - 1)) / page_size * page_size
unfolding new_range info_of
asked_len addr size prot flags h = align_up-page size h

call_passes :
    (open_files : ℕ → Option ℕ) (has_mmap : ℕ → Bool) (st st' : MapState)
    (addr size prot flags offset b : ℕ)
    → IsAnonymous flags offset
    → 0 < size
    → vm_space_map st (info_of addr size prot flags 0 0 0) ≡ some (st', b)
    → sys_mmap open_files has_mmap st addr size prot flags none offset ≡ (st', mapped b)
unfolding sys_mmap
call_passes open_files has_mmap st st' addr size prot flags offset b a pos e =
    let some_size : (size == 0) ≡ false = ground (arith, pos) in
    rw (sys_mmap, some_size, a.aligned, a.is_private, a.not_shared, a.anonymous, e) refl

-- An anonymous, private mapping without MAP_FIXED and without a descriptor, of a size above 0 and
-- with an offset of whole pages, in an ordered space whose ranges, and start, end low enough for the
-- rounded length not to wrap: `sys_mmap` always succeeds. At the address that it returns stands a new
-- range of the rounded length, with the permissions asked for and PROT_USER, which overlaps no
-- other; `vm_space_get_range` finds it at its addresses, and elsewhere what it found before.
pub sys_mmap-Mapped :
    (open_files : ℕ → Option ℕ) (has_mmap : ℕ → Bool) (st : MapState)
    (addr size prot flags offset hi : ℕ)
    → IsAnonymous flags offset
    → IsOrdered st.space
    → AllBelow hi st.space.objects
    → st.space.start_address ≤ hi
    → 0 < size
    → size + page_size ≤ u64_mod
    → hi + size + page_size ≤ u64_mod
    → (st' : MapState) × (b : ℕ) × (sys_mmap open_files has_mmap st addr size prot flags none offset
        ≡ (st', mapped b))
      × ((asked addr size prot flags).len ≡ (size + (page_size - 1)) / page_size * page_size)
      × ((asked addr size prot flags).prot ≡ bit_or (bit_and prot 7) prot_user)
      × Mapped st (asked addr size prot flags) st' b
unfolding sys_mmap new_range info_of
sys_mmap-Mapped open_files has_mmap st addr size prot flags offset hi a v below le pos wrap room =
    let r = asked addr size prot flags in
    let len : r.len ≡ (size + (page_size - 1)) / page_size * page_size =
      asked_len addr size prot flags wrap in
    let (space', b, e, p, w) =
      find_free_range-Placed st.space r hi v (omega (arith, len, pos)) (omega (arith, len, room))
        below le in
    (
      record st { space = space' },
      b,
      call_passes open_files has_mmap st (record st { space = space' }) addr size prot flags offset
          b a pos
          (vm_space_map-map_range st (info_of addr size prot flags 0 0 0)
              (no_device addr size prot flags a.not_fixed) refl
            ∙ ap some (
                map_anywhere st (info_of addr size prot flags 0 0 0) space' b
                  (no_address addr size prot flags a.not_fixed)
                  (info_of-no_file addr size prot flags a.not_fixed)
                  (no_replace addr size prot flags a.not_fixed) e)),
      len,
      refl,
      record {
        ordered = w;
        above = p.above;
        same_refs = refl;
        inserted = p.inserted;
        found = λ a.
            get_range-Insert (placed_at r b) st.space.objects space'.objects st.space.start_address
              a p.inserted p.sorted;
      },
    )
