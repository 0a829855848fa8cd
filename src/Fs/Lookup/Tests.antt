-- ===== src/Fs/Lookup/Tests.antt =====
-- Lookups in a tree whose root directory 1 holds one file, "sh", and the theorems of kernel/fs/lookup.c
-- at it.
use mathlib.Core.Path.{subst}
use monolith.Fs.Dcache.Names.{same_bytes}
use monolith.Fs.Files.{is_type, s_ifdir}
use monolith.Fs.Generic.{generic_fs_lookup}
use monolith.Fs.Generic.Placed.{HasChildren, generic-IsPlaced}
use monolith.Fs.Lookup.{
  FileTree, LookupState, components, entry_put, entry_ref, find_component, finish, lookup_loop,
  next_entry, traverse, vfs_lookup, vfs_lookup_at,
}
use monolith.Fs.Lookup.Balance.{Balanced, vfs_lookup_at-Balanced}
use monolith.Fs.Lookup.Cached.{IsCoherent}
use monolith.Fs.Lookup.Transparent.{forgotten, vfs_lookup-forgotten}
use monolith.Prelude.{
  Bool-cases, List, [], arith, false, if◌then◌else◌, inl, inr, none, refl, true, ℕ, ◌++◌, ◌==◌, ◌∷◌,
  ◌≡◌,
}
use monolith.Prelude.Errno.{enotdir, err, ok}
use monolith.Prelude.Members.{contains}

abbrev sh : List ℕ
sh = b's' ∷ b'h' ∷ []

abbrev children : ℕ → List ℕ
children p = if p == 1 then 2 ∷ [] else []

abbrev tree : FileTree
tree = record {
  parent_of = λ v. if v == 2 then 1 else 0;
  name_of = λ v. sh;
  mode_of = λ v. if v == 1 then s_ifdir else 0x8000;
  mount_of = λ v. none;
  mounts = [];
  root_node = 1;
  has_lookup = λ v. true;
  fs_lookup = λ p n. generic_fs_lookup (λ v. sh) (children p) n;
}

abbrev start : LookupState
start = record { cached = λ p n. none; refs = λ v. 1; buffers = 0 }

abbrev root_sh : List ℕ
root_sh = b'/' ∷ b's' ∷ b'h' ∷ b'/' ∷ []

found_runs : (vfs_lookup tree start 1 root_sh false).0 ≡ ok 2
unfolding vfs_lookup vfs_lookup_at components lookup_loop next_entry find_component traverse is_type
    finish same_bytes entry_ref generic_fs_lookup
found_runs = refl

-- a path through a file
through_runs : (vfs_lookup_at tree start 1 (sh ++ root_sh) false).0 ≡ err enotdir
unfolding vfs_lookup_at components lookup_loop next_entry find_component traverse is_type finish
    same_bytes entry_ref generic_fs_lookup
through_runs = refl

leak_runs : (vfs_lookup_at tree start 1 (sh ++ root_sh) false).1.buffers ≡ 1
unfolding vfs_lookup_at components lookup_loop next_entry find_component traverse is_type finish
    same_bytes entry_ref generic_fs_lookup entry_put
leak_runs = refl

vfs_lookup_at-Balanced_example : Balanced start (vfs_lookup_at tree start 1 sh true)
vfs_lookup_at-Balanced_example = vfs_lookup_at-Balanced tree start 1 sh true (λ x. omega arith)

only_child : (p e : ℕ) → contains e (children p) ≡ true → (2 ≡ e) × (1 ≡ p)
unfolding contains
only_child p e h = elim (Bool-cases (p == 1)) [
  | inl b ↦ let on = rw b at h in (ground (arith, on), ground (arith, b))
  | inr b ↦ absurd (cc (rw b at h))
]

tree-HasChildren : HasChildren tree children
unfolding traverse is_type same_bytes
tree-HasChildren = record {
  asks = λ p n. refl;
  child = λ p e h.
      let (two, one) = only_child p e h in
      (
        subst (λ x. (if x == 2 then 1 else 0) ≡ p) two one,
        ((refl, (refl, tt)), refl, refl),
        omega arith,
        subst (λ x. is_type s_ifdir (tree.mode_of x) ≡ true) one refl,
      );
  flat_mounts = λ v r h. elim (Bool-cases (r == 1)) [ inl e ↦ rw e refl | inr e ↦ rw e refl ];
}

vfs_lookup-forgotten_example :
    ((vfs_lookup tree start 1 root_sh false).0
      ≡ (vfs_lookup tree (forgotten start) 1 root_sh false).0)
    × IsCoherent tree (vfs_lookup tree start 1 root_sh false).1
vfs_lookup-forgotten_example =
    vfs_lookup-forgotten tree (generic-IsPlaced tree children tree-HasChildren) start 1 root_sh
      false (record { hit = λ p e n h. cc })
