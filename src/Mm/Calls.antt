-- ===== src/Mm/Calls.antt =====
-- kernel/mm/vm_syscall.c, and `vm_space_map` and `vm_space_unmap` of kernel/mm/vmm.c as far as they
-- keep the ranges of an address space: the page tables, and the pages behind them, are not in this
-- part. A file is named by its number in the table of open files, whose counts of references are
-- kept with the space. The file's own `mmap`, which may change the flags of the new range, is not in
-- this part either. The mapping of devices is not in this part: no call of a program asks for it.
pub mod Mapping
pub mod Unmapping
pub mod Leaks
mod Tests
use monolith.Mm.PageFault.{
  flag_cow, flag_file, has_bit, prot_user, prot_write, userspace_base, userspace_end,
}
use monolith.Mm.VmSpace.{VmObject, VmSpace, check_range, find_free_range, take_range}
use monolith.Prelude.{
  Bool, Option, bit_and, bit_or, if◌then◌else◌, ltb, none, not, some, ℕ, ◌%◌, ◌&&◌, ◌+◌, ◌-◌, ◌==◌,
  ◌||◌,
}
use monolith.Prelude.Errno.{Errno, ebadf, einval, enodev, enotsup}
use monolith.Prelude.Words.{align_down, align_up, page_size, u32_mod}

abbrev pub map_shared : ℕ
map_shared = 1

abbrev pub map_private : ℕ
map_private = 2

abbrev pub map_fixed : ℕ
map_fixed = 16

abbrev pub map_anonymous : ℕ
map_anonymous = 32

-- VM_FLAG_ALLOCATE, VM_FLAG_DEVICE and VM_FLAG_REPLACE
abbrev pub flag_allocate : ℕ
flag_allocate = 1

abbrev pub flag_device : ℕ
flag_device = 8

abbrev pub flag_replace : ℕ
flag_replace = 32

-- `vm_mapping_info`
pub record MappingInfo : Type 0 where
  pub length : ℕ
  pub prot : ℕ
  pub flags : ℕ
  pub virt_base : ℕ
  pub phys_base : ℕ
  pub offset : ℕ
  pub fd : ℕ

-- the caller's address space, and `refcount` of every file
pub record MapState : Type 0 where
  pub space : VmSpace
  pub refs : ℕ → ℕ

-- `vfs_ref_file` and the decrement of `vfs_put_file`
unfoldable pub count_file : MapState → ℕ → (ℕ → ℕ) → MapState
count_file st fd change = record st {
  refs = λ f. if f == fd then change (st.refs f) else st.refs f;
}

-- The new object. Its offset is only used when it has a file.
unfoldable pub new_range : MappingInfo → VmObject
unfolding align_down align_up has_bit
new_range info =
    let is_file = has_bit info.flags flag_file in
    let cow =
      has_bit info.prot prot_write
      && (not is_file
          && (not (has_bit info.flags flag_allocate) && not (has_bit info.flags flag_device))) in
    record {
      base = align_down info.virt_base page_size;
      len = align_up info.length page_size;
      prot = info.prot;
      flags = if cow then bit_or info.flags flag_cow else info.flags;
      file = if is_file then some info.fd else none;
      offset = info.offset;
    }

-- The choice of a place for the range, given whether a base is asked for: the space is that of `st`,
-- and the rest of the state that of `st1`. The result is the base of the range, or 0.
unfoldable pub place_range : MapState → MapState → VmObject → Bool → MapState × ℕ
unfolding has_bit
place_range st st1 range at_base =
    let replace = has_bit range.flags flag_replace in
    let checked : MapState × ℕ = elim (check_range st.space range replace) [
      | none ↦ (st1, 0)
      | some space' ↦ (record st1 { space = space' }, range.base)
    ] in
    let placed : MapState × ℕ = elim (find_free_range st.space range) [
      | none ↦ (st1, 0)
      | some (space', b) ↦ (record st1 { space = space' }, b)
    ] in
    if at_base || replace then checked else placed

-- `vm_space_map` behind its tests of the physical base
unfoldable pub map_range : MapState → MappingInfo → MapState × ℕ
unfolding count_file
map_range st info =
    let st1 =
      if has_bit info.flags flag_file then count_file st info.fd (λ n. (n + 1) % u32_mod) else st in
    place_range st st1 (new_range info) (not (info.virt_base == 0))

-- `vm_space_map`, where `none` is a panic: a physical base is asked for exactly of a device.
unfoldable pub vm_space_map : MapState → MappingInfo → Option (MapState × ℕ)
unfolding map_range has_bit
vm_space_map st info =
    let no_base = info.phys_base == 0 in
    if (if has_bit info.flags flag_device then no_base else not no_base)
    then none
    else some (map_range st info)

-- what `sys_mmap` returns: the number of an error, which is not negated, or the result of
-- `vm_space_map`
pub data MmapResult : Type 0 where
  panicked : MmapResult
  failed : Errno → MmapResult
  mapped : ℕ → MmapResult

unfoldable pub info_of : ℕ → ℕ → ℕ → ℕ → ℕ → ℕ → ℕ → MappingInfo
unfolding has_bit
info_of addr size prot flags extra fd offset = record {
  length = size;
  prot = bit_or (bit_and prot 7) prot_user;
  flags = bit_or (if has_bit flags map_fixed then flag_replace else 0) extra;
  virt_base = if has_bit flags map_fixed then addr else 0;
  phys_base = 0;
  offset = offset;
  fd = fd;
}

abbrev map_result : MapState → Option (MapState × ℕ) → MapState × MmapResult
map_result st none = (st, panicked)
map_result st (some (st', b)) = (st', mapped b)

-- `sys_mmap`. A negative descriptor is `none`; `open_files` is the caller's table, and `has_mmap`
-- says whether the file's operations have `mmap`.
unfoldable pub sys_mmap :
    (ℕ → Option ℕ) → (ℕ → Bool) → MapState → ℕ → ℕ → ℕ → ℕ → Option ℕ → ℕ → MapState × MmapResult
unfolding has_bit
sys_mmap open_files has_mmap st addr size prot flags fd offset =
    let anonymous : MapState × MmapResult = elim fd [
      | some n ↦ (st, failed einval)
      | none ↦
          if has_bit flags map_shared
          then (st, failed enotsup)
          else map_result st (vm_space_map st (info_of addr size prot flags 0 0 0))
    ] in
    let of_file : ℕ → MapState × MmapResult = λ v_fd.
      if has_mmap v_fd
      then map_result st (vm_space_map st (info_of addr size prot flags flag_file v_fd offset))
      else (st, failed enodev) in
    let from_table : MapState × MmapResult = elim fd [
      | none ↦ (st, failed ebadf)
      | some n ↦ elim (open_files n) [ none ↦ (st, failed ebadf) | some v_fd ↦ of_file v_fd ]
    ] in
    if (size == 0) || has_bit offset 0xfff
    then (st, failed einval)
    else if not (has_bit flags map_private) && not (has_bit flags map_shared)
    then (st, failed einval)
    else if has_bit flags map_private && has_bit flags map_shared
    then (st, failed einval)
    else if has_bit flags map_anonymous
    then anonymous
    else from_table

-- `vm_space_unmap`; the length is only compared to print a message.
unfoldable pub vm_space_unmap : MapState → ℕ → MapState
unfolding take_range count_file
vm_space_unmap st addr = elim (take_range st.space.objects addr) [
  | none ↦ st
  | some (cur, rest) ↦
      let st' = record st { space = record st.space { objects = rest } } in
      elim cur.file [ none ↦ st' | some fd ↦ count_file st' fd (λ n. (n + u32_mod - 1) % u32_mod) ]
]

-- its size is not looked at
unfoldable pub vm_validate_ptr : ℕ → Bool
vm_validate_ptr ptr = not (ltb ptr userspace_base || ltb userspace_end ptr)

unfoldable pub sys_munmap : MapState → ℕ → ℕ → MapState × Option Errno
unfolding has_bit vm_validate_ptr
sys_munmap st addr size =
    if (size == 0) || has_bit addr 0xfff
    then (st, some einval)
    else if not (vm_validate_ptr addr)
    then (st, some einval)
    else (vm_space_unmap st addr, none)
