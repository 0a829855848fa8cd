-- ===== src/Fs/Generic.antt =====
-- `generic_fs_lookup` of kernel/fs/generic.c, the lookup of ramfs and devfs, over the children of a
-- directory in order. The reference that is taken on each child is dropped again.
pub mod Placed
use monolith.Libk.Memory.{strncmp}
use monolith.Prelude.{Bool, List, Option, [], if◌then◌else◌, none, some, ℕ, ◌==◌, ◌∷◌}

-- does `strncmp` of 64 bytes return 0
unfoldable pub same_name : List ℕ → List ℕ → Bool
unfolding strncmp
same_name name path = let (a, b) = strncmp name path 64 in a == b

unfoldable pub generic_fs_lookup : (ℕ → List ℕ) → List ℕ → List ℕ → Option ℕ
unfolding same_name
generic_fs_lookup name_of [] path = none
generic_fs_lookup name_of (current ∷ rest) path =
    let later = generic_fs_lookup name_of rest path in
    if same_name (name_of current) path then some current else later
