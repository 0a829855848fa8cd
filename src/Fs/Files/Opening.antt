-- ===== src/Fs/Files/Opening.antt =====
-- The references that an opened file holds on its vnode (kernel/fs/vfs.c).
use native.Mathlib.Decide.{ℕ_discrete}
use monolith.Fs.Files.{File, Vfs, find_free, no_file, no_vnode, vfs_open_internal, vnode_ref}
use monolith.Fs.Files.Slots.{
  AllUsed, Found, find_free-Found, open_count, open_count-set, ref_of, ref_of-set, refers,
}
use monolith.Prelude.{
  ==-ne, ==_iff, Bool, List, Option, Option-cases, ap, arith, get_or, get_or-set_self,
  if◌then◌else◌, inl, inr, length, length-set, refl, set, some, true, ℕ, ◌+◌, ◌-◌, ◌<◌, ◌==◌, ◌∙◌,
  ◌≡◌,
}
use monolith.Prelude.Errno.{Result, enfile, err, ok}
use monolith.Prelude.Words.{u32_mod}

abbrev pub one_if : Bool → ℕ
one_if b = if b then 1 else 0

counted :
    (node n a b c : ℕ)
    → b ≡ a + 1
    → (node ≡ n → a ≡ c)
    → (if node == n then b else c) ≡ c + one_if (node == n)
counted node n a b c e same = elim (ℕ_discrete node n) [
  | yes q ↦ rw ((==_iff node n).1 q) (omega (arith, same q))
  | no ne ↦ rw (==-ne node n ne) (omega arith)
]

held-ref :
    (s : Vfs) (node n : ℕ)
    → node < length s.vnodes
    → ref_of node s.vnodes + 1 < u32_mod
    → ref_of n (set s.vnodes node (vnode_ref (get_or s.vnodes node no_vnode)))
      ≡ ref_of n s.vnodes + one_if (node == n)
unfolding vnode_ref
held-ref s node n room small =
    ref_of-set n s.vnodes node _ room
    ∙ counted node n (ref_of node s.vnodes) _ (ref_of n s.vnodes) (omega arith)
        (λ q. ap (λ m. ref_of m s.vnodes) q)

free-refers :
    (fs : List File) (k : ℕ)
    → (get_or fs k no_file).refcount ≡ 0
    → (n : ℕ) → refers n (get_or fs k no_file) ≡ 0
free-refers fs k e n =
    let z : ((get_or fs k no_file).refcount == 0) ≡ true = ground arith in rw z refl

-- a file as it is opened
abbrev pub file_at : ℕ → Option ℕ → ℕ → File
file_at node path fs_id = record {
  pos = 0;
  inode = some node;
  path = path;
  fs_id = fs_id;
  refcount = 1;
}

-- what `vfs_open_internal` must do for each result
abbrev pub Opened : Vfs → ℕ → Option ℕ → ℕ → Vfs × Result ℕ → Type 0
Opened s node path fs_id (s', err e) =
    (e ≡ enfile)
    × AllUsed s.open_files
    × (s'.open_files ≡ s.open_files)
    × ((n : ℕ) → ref_of n s'.vnodes ≡ ref_of n s.vnodes + one_if (node == n))
Opened s node path fs_id (s', ok fd) =
    (fd < length s.open_files)
    × (length s'.open_files ≡ length s.open_files)
    × (length s'.vnodes ≡ length s.vnodes)
    × ((get_or s.open_files fd no_file).refcount ≡ 0)
    × (get_or s'.open_files fd no_file ≡ file_at node path fs_id)
    × ((n : ℕ) → open_count n s'.open_files ≡ open_count n s.open_files + one_if (node == n))
    × ((n : ℕ) → ref_of n s'.vnodes ≡ ref_of n s.vnodes + one_if (node == n))

-- `vfs_open_internal`, once the vnode's own operation has succeeded, takes a free place for a file
-- with one reference at position 0, and then both the vnode's open files and its reference count
-- grow by one, and those of no other vnode. It fails only with -ENFILE and only if every place is in
-- use; then no file changes, but the vnode's reference count still grows by one.
pub open-Opened :
    (s : Vfs) (node : ℕ) (path : Option ℕ) (fs_id : ℕ)
    → node < length s.vnodes
    → ref_of node s.vnodes + 1 < u32_mod
    → Opened s node path fs_id (vfs_open_internal s node path (ok fs_id))
unfolding vfs_open_internal
open-Opened s node path fs_id room small = elim (Option-cases (find_free s.open_files 0)) [
  | inl z ↦
      let used : AllUsed s.open_files = rw z at (find_free-Found s.open_files 0) in
      rw (vfs_open_internal, z) (refl, used, refl, λ n. held-ref s node n room small)
  | inr (fd, z) ↦
      let place : fd - 0 ≡ fd = omega arith in
      let found : Found 0 s.open_files (some fd) = rw z at (find_free-Found s.open_files 0) in
      let in_table : fd < length s.open_files = omega (arith, found.1) in
      let slot : (get_or s.open_files fd no_file).refcount ≡ 0 = rw place at found.2 in
      let none_before = free-refers s.open_files fd slot in
      rw (vfs_open_internal, z)
        (
          in_table,
          length-set s.open_files fd (file_at node path fs_id),
          length-set s.vnodes node (vnode_ref (get_or s.vnodes node no_vnode)),
          slot,
          get_or-set_self s.open_files fd _ no_file in_table,
          λ n. omega (
            arith,
            open_count-set n s.open_files fd (file_at node path fs_id) in_table,
            none_before n,
          ),
          λ n. held-ref s node n room small,
        )
]
