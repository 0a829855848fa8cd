-- ===== src/Mm/Calls/Unmapping.antt =====
-- `sys_munmap` of kernel/mm/vm_syscall.c after `sys_mmap`.
use mathlib.Core.Path.{subst}
use monolith.Mm.Calls.{
  MapState, MmapResult, failed, map_fixed, mapped, new_range, panicked, sys_mmap, sys_munmap,
  vm_space_unmap, vm_validate_ptr,
}
use monolith.Mm.Calls.Mapping.{IsAnonymous, Mapped, asked, info_of-no_file, sys_mmap-Mapped}
use monolith.Mm.PageFault.{has_bit}
use monolith.Mm.VmSpace.{VmObject, take_range}
use monolith.Mm.VmSpace.Check.{IsOrdered}
use monolith.Mm.VmSpace.Find.{AllBelow, placed_at}
use monolith.Mm.VmSpace.Ranges.{Insert, Insert-le, Sorted, here, there}
use monolith.Prelude.{
  ==-self, Bool, List, Option, ap, arith, false, none, refl, some, sym, true, ℕ, ◌+◌, ◌<◌, ◌==◌,
  ◌∙◌, ◌≡◌, ◌≤◌,
}
use monolith.Prelude.Words.{page_size, u64_mod}

take_range-Insert :
    (r : VmObject) (lo : ℕ) (xs ys : List VmObject)
    → Insert r xs ys
    → Sorted lo ys
    → take_range ys r.base ≡ some (r, xs)
unfolding take_range
take_range-Insert r lo xs _ here s = rw (==-self r.base) refl
take_range-Insert r lo _ _ (there {x} {xs} {ys} i) s =
    let le : x.base + x.len ≤ r.base = Insert-le r xs ys (x.base + x.len) i s.3 in
    let ne : (x.base == r.base) ≡ false = ground (arith, le, s.1) in
    rw (ne, take_range-Insert r (x.base + x.len) xs ys i s.3) refl

unmap-mapped :
    (st' : MapState) (b : ℕ) (cur : VmObject) (rest : List VmObject)
    → take_range st'.space.objects b ≡ some (cur, rest)
    → cur.file ≡ none
    → vm_space_unmap st' b ≡ record st' { space = record st'.space { objects = rest } }
unfolding vm_space_unmap
unmap-mapped st' b cur rest t f = rw (vm_space_unmap, t, f) refl

asked-file :
    (addr size prot flags : ℕ)
    → has_bit flags map_fixed ≡ false
    → (asked addr size prot flags).file ≡ none
unfolding new_range
asked-file addr size prot flags h = rw (info_of-no_file addr size prot flags h) refl

abbrev base_of : MmapResult → ℕ
base_of panicked = 0
base_of (failed e) = 0
base_of (mapped b) = b

munmap_passes :
    (st' : MapState) (b size : ℕ)
    → 0 < size
    → has_bit b 0xfff ≡ false
    → vm_validate_ptr b ≡ true
    → sys_munmap st' b size ≡ (vm_space_unmap st' b, none)
unfolding sys_munmap
munmap_passes st' b size pos aligned valid =
    let some_size : (size == 0) ≡ false = ground (arith, pos) in
    rw (sys_munmap, some_size, aligned, valid) refl

-- `sys_mmap` gives an anonymous, private mapping without MAP_FIXED, under the conditions under which
-- it succeeds, at a page's address of user space. `sys_munmap` of that address then succeeds, and
-- the ranges of the space and the references to files are again those before the two calls.
pub munmap-mmap :
    (open_files : ℕ → Option ℕ) (has_mmap : ℕ → Bool) (st st' : MapState)
    (addr size prot flags offset hi b : ℕ)
    → IsAnonymous flags offset
    → IsOrdered st.space
    → AllBelow hi st.space.objects
    → st.space.start_address ≤ hi
    → 0 < size
    → hi + size + page_size ≤ u64_mod
    → sys_mmap open_files has_mmap st addr size prot flags none offset ≡ (st', mapped b)
    → has_bit b 0xfff ≡ false
    → vm_validate_ptr b ≡ true
    → ((sys_munmap st' b size).1 ≡ none)
      × ((sys_munmap st' b size).0.space.objects ≡ st.space.objects)
      × ((sys_munmap st' b size).0.refs ≡ st.refs)
munmap-mmap open_files has_mmap st st' addr size prot flags offset hi b a v below le pos room e
      aligned valid =
    let (st2, b2, e2, _, _, m) =
      sys_mmap-Mapped open_files has_mmap st addr size prot flags offset hi a v below le pos
        (omega (arith, room)) room in
    let same_state : st2 ≡ st' = ap (λ x. x.0) (sym e2 ∙ e) in
    let same_base : b2 ≡ b = ap (λ x. base_of x.1) (sym e2 ∙ e) in
    let m1 = subst (λ s. Mapped st (asked addr size prot flags) s b2) same_state m in
    let m2 : Mapped st (asked addr size prot flags) st' b =
      subst (λ n. Mapped st (asked addr size prot flags) st' n) same_base m1 in
    let taken =
      take_range-Insert (placed_at (asked addr size prot flags) b) st'.space.start_address
        st.space.objects st'.space.objects m2.inserted m2.ordered.sorted in
    let result =
      munmap_passes st' b size pos aligned valid
      ∙ ap (λ s. (s, none))
          (unmap-mapped st' b (placed_at (asked addr size prot flags) b) st.space.objects taken
            (asked-file addr size prot flags a.not_fixed)) in
    (
      ap (λ x. x.1) result,
      ap (λ x. x.0.space.objects) result,
      ap (λ x. x.0.refs) result ∙ m2.same_refs,
    )
