-- ===== src/Mm/PageFault.antt =====
-- `vm_page_fault` of kernel/mm/vmm.c, as far as it decides what is done: the page tables, the page
-- allocator and the file's own fault operation are behind the arguments.
mod Digits
pub mod Permission
use monolith.Mm.VmSpace.{VmObject, get_range}
use monolith.Prelude.{
  Bool, List, bit_and, if◌then◌else◌, ltb, none, not, some, ℕ, ◌&&◌, ◌+◌, ◌==◌, ◌||◌,
}

-- VM_USERSPACE_BASE and VM_USERSPACE_END (kernel/include/mm/vmm.h)
abbrev pub userspace_base : ℕ
userspace_base = 0x10000

abbrev pub userspace_end : ℕ
userspace_end = 0x7fffffffffff

-- the bits of `vm_prot_t`, `vm_flags_t` and `pf_flag_t` that are tested
abbrev pub prot_read : ℕ
prot_read = 1

abbrev pub prot_write : ℕ
prot_write = 2

abbrev pub prot_exec : ℕ
prot_exec = 4

abbrev pub prot_user : ℕ
prot_user = 8

abbrev pub flag_cow : ℕ
flag_cow = 2

abbrev pub flag_file : ℕ
flag_file = 4

abbrev pub fault_present : ℕ
fault_present = 1

abbrev pub fault_write : ℕ
fault_write = 2

abbrev pub fault_user : ℕ
fault_user = 4

abbrev pub fault_fetch : ℕ
fault_fetch = 8

unfoldable pub has_bit : ℕ → ℕ → Bool
has_bit word f = not (bit_and word f == 0)

-- the result false; a page of the range filled anew, with zeros or from the shared page; the fault
-- operation of the range's file
pub data FaultAction : Type 0 where
  refused : FaultAction
  zero_filled page_copied asks_file : VmObject → FaultAction

-- does the access lack a permission of the range
unfoldable pub denied : VmObject → ℕ → Bool
unfolding has_bit
denied range flags =
    (has_bit flags fault_write && not (has_bit range.prot prot_write))
    || ((has_bit flags fault_user && not (has_bit range.prot prot_user))
        || (has_bit flags fault_fetch && not (has_bit range.prot prot_exec)))

-- `shares_zero` says whether the page is the common page of zeros, `free_page` whether
-- `pmm_allocate` returns one, and `has_fault` whether `vm_ops` of the range has `fault`.
unfoldable pub fault_action : VmObject → ℕ → Bool → Bool → Bool → FaultAction
unfolding has_bit
fault_action range flags shares_zero free_page has_fault =
    if has_bit flags fault_present
    then (if has_bit flags fault_write
          && (has_bit range.prot (prot_read + prot_write) && has_bit range.flags flag_cow)
        then (if free_page
            then (if shares_zero then zero_filled range else page_copied range)
            else refused)
        else refused)
    else (if has_bit range.flags flag_file && has_fault then asks_file range else refused)

unfoldable pub vm_page_fault :
    Bool → List VmObject → ℕ → ℕ → Bool → Bool → (VmObject → Bool) → FaultAction
unfolding get_range denied fault_action
vm_page_fault has_task objects addr flags shares_zero free_page has_fault =
    if ltb addr userspace_base || ltb userspace_end addr
    then refused
    else (if not has_task then refused else elim (get_range objects addr) [
      | none ↦ refused
      | some range ↦
          if denied range flags
          then refused
          else fault_action range flags shares_zero free_page (has_fault range)
    ])
