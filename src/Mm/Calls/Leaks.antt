-- ===== src/Mm/Calls/Leaks.antt =====
-- Mappings of files that `sys_mmap` of kernel/mm/vm_syscall.c asks of `vm_space_map` and does not get.
-- the arguments that ask for a private mapping of an open file that can be mapped, at a fixed place
use monolith.Mm.Calls.{
  MapState, MappingInfo, info_of, map_anonymous, map_fixed, map_private, map_shared,
}
use monolith.Mm.PageFault.{flag_file, has_bit}
use monolith.Prelude.{Bool, Option, false, some, true, ℕ, ◌==◌, ◌≡◌}

pub record IsFixedFile (open_files : ℕ → Option ℕ) (has_mmap : ℕ → Bool)
    (size flags fd offset v_fd : ℕ) : Type 0 where
  pub some_size : (size == 0) ≡ false
  pub aligned : has_bit offset 0xfff ≡ false
  pub is_private : has_bit flags map_private ≡ true
  pub not_shared : has_bit flags map_shared ≡ false
  pub not_anonymous : has_bit flags map_anonymous ≡ false
  pub fixed : has_bit flags map_fixed ≡ true
  pub opened : open_files fd ≡ some v_fd
  pub can_map : has_mmap v_fd ≡ true

module _ (st : MapState) (addr size prot flags offset v_fd : ℕ)
    (fixed : has_bit flags map_fixed ≡ true) where
  abbrev info : MappingInfo
  info = info_of addr size prot flags flag_file v_fd offset
