-- ===== src/Fs/Lookup.antt =====
-- kernel/fs/lookup.c: from a path to an entry. An entry is named by its address, with 0 for nullptr,
-- and a path is its bytes. The directory cache is the map that Fs/Dcache shows it to be. What the
-- file systems answer is a parameter of the model, as are the entries themselves and the mounts,
-- which a lookup only reads.
pub mod Split
pub mod Balance
pub mod Cached
pub mod Transparent
mod Tests
use monolith.Fs.Dcache.Names.{same_bytes}
use monolith.Fs.Files.{is_type, s_ifdir}
use monolith.Prelude.{
  Bool, List, Option, [], drop, false, get_or, if◌then◌else◌, none, not, some, true, ℕ, ◌%◌, ◌&&◌,
  ◌++◌, ◌+◌, ◌-◌, ◌==◌, ◌∷◌,
}
use monolith.Prelude.Errno.{Result, enoent, enotdir, err, ok}
use monolith.Prelude.Words.{u32_mod}

-- `sb_ops->root` of a mount is `none` when it fails. `mount_of` is the mount on an entry, if any;
-- `mounts` are the mount points of all mounts with their roots, in order.
pub record FileTree : Type 0 where
  pub parent_of : ℕ → ℕ
  pub name_of : ℕ → List ℕ
  pub mode_of : ℕ → ℕ
  pub mount_of : ℕ → Option (Option ℕ)
  pub mounts : List (ℕ × Option ℕ)
  pub root_node : ℕ
  pub has_lookup : ℕ → Bool
  pub fs_lookup : ℕ → List ℕ → Option ℕ

-- What a lookup changes: the cache, the reference counts of entries, and the number of buffers from
-- `kmalloc` that have not been freed.
pub record LookupState : Type 0 where
  pub cached : ℕ → List ℕ → Option ℕ
  pub refs : ℕ → ℕ
  pub buffers : ℕ

unfoldable pub entry_ref : LookupState → ℕ → LookupState
entry_ref s v = record s { refs = λ x. if x == v then (s.refs x + 1) % u32_mod else s.refs x }

unfoldable pub entry_put : LookupState → ℕ → LookupState
entry_put s v = record s {
  refs = λ x. if x == v then (s.refs x + u32_mod - 1) % u32_mod else s.refs x;
}

abbrev pub dot : List ℕ
dot = b'.' ∷ []

abbrev pub dot_dot : List ℕ
dot_dot = b'.' ∷ b'.' ∷ []

-- the components of a path, between its slashes; `component` holds the bytes since the last one
unfoldable pub split_loop : List ℕ → List ℕ → List (List ℕ)
split_loop [] component = elim component [ [] ↦ [] | x ∷ xs ↦ (x ∷ xs) ∷ [] ]
split_loop (c ∷ path) component =
    let done = split_loop path [] in
    let more = split_loop path (component ++ (c ∷ [])) in
    if c == b'/' then elim component [ [] ↦ done | x ∷ xs ↦ (x ∷ xs) ∷ done ] else more

unfoldable pub components : List ℕ → List (List ℕ)
unfolding split_loop
components path = split_loop path []

-- the walk over the mounts for the one whose root is `current`
unfoldable pub mount_loop : FileTree → ℕ → List (ℕ × Option ℕ) → ℕ
mount_loop t current [] = 0
mount_loop t current ((point, root) ∷ rest) =
    let later = mount_loop t current rest in
    let above = if point == t.root_node then t.root_node else t.parent_of point in
    elim root [ none ↦ later | some r ↦ if r == current then above else later ]

-- the entry that ".." names
unfoldable pub parent_entry : FileTree → ℕ → ℕ
unfolding mount_loop
parent_entry t current =
    if t.parent_of current == 0 then mount_loop t current t.mounts else t.parent_of current

-- the entry that stands for `v` when a file system is mounted on it
unfoldable pub traverse : FileTree → ℕ → Option ℕ
traverse t v =
    if v == t.root_node then some v else elim (t.mount_of v) [ none ↦ some v | some root ↦ root ]

-- `dcache_insert`, as a map: the entry is kept under its own parent and name
unfoldable pub remember : FileTree → LookupState → ℕ → LookupState
unfolding same_bytes
remember t s v = record s {
  cached =
      λ p q. if (t.parent_of v == p) && same_bytes (t.name_of v) q then some v else s.cached p q;
}

-- one component that is neither "." nor "..": the entry found, or 0, in the directory `current`
unfoldable pub find_component : FileTree → LookupState → ℕ → List ℕ → Result ℕ × LookupState
unfolding remember
find_component t s current component = elim (s.cached current component) [
  | some e ↦ (ok e, s)
  | none ↦
      if t.has_lookup current
      then elim (t.fs_lookup current component) [
        | none ↦ (ok 0, s)
        | some e ↦ (ok e, remember t s e)
      ]
      else (err enoent, s)
]

-- The step of the loop behind the test for the last component: the next entry, or 0. The reference
-- on `current` is dropped, and on the way one is moved to the root of a mounted file system.
unfoldable pub next_entry : FileTree → LookupState → ℕ → List ℕ → Result ℕ × LookupState
next_entry t s current component =
    if same_bytes component dot
    then (ok current, entry_put s current)
    else if same_bytes component dot_dot
    then (ok (parent_entry t current), entry_put s current)
    else elim (traverse t current) [
      | none ↦ (err enoent, entry_put s current)
      | some base ↦
          let moved = if base == current then s else entry_ref (entry_put s current) base in
          let (found, s') = find_component t moved base component in (found, entry_put s' base)
    ]

-- the loop over the components; `parent_only` is LOOKUP_PARENT
unfoldable pub lookup_loop :
    FileTree → Bool → LookupState → ℕ → List (List ℕ) → Result ℕ × LookupState
lookup_loop t parent_only s current [] = (ok current, s)
lookup_loop t parent_only s current (c ∷ cs) =
    let s1 = entry_ref s current in
    let last : Bool = elim cs [ [] ↦ true | _ ∷ _ ↦ false ] in
    let (next, s2) = next_entry t s1 current c in
    let rest : Result ℕ × LookupState = elim next [
      | err e ↦ (err e, s2)
      | ok v ↦ lookup_loop t parent_only s2 v cs
    ] in
    if current == 0
    then (ok 0, s)
    else if not (is_type s_ifdir (t.mode_of current))
    then (err enotdir, entry_put s1 current)
    else if last && parent_only
    then (ok current, entry_put s1 current)
    else rest

-- the mount on the entry that was reached, and the result
unfoldable pub finish : FileTree → ℕ → Result ℕ
finish t v =
    if v == 0 then err enoent else elim (traverse t v) [ none ↦ err enoent | some r ↦ ok r ]

unfoldable pub vfs_lookup_at : FileTree → LookupState → ℕ → List ℕ → Bool → Result ℕ × LookupState
vfs_lookup_at t s parent path parent_only = elim (s.cached parent path) [
  | some e ↦ (finish t (if parent_only then t.parent_of e else e), s)
  | none ↦
      let s1 = record s { buffers = s.buffers + 1 } in
      let (reached, s2) = lookup_loop t parent_only s1 parent (components path) in
      elim reached [
        | err e ↦ (err e, s2)
        | ok v ↦ (finish t v, record s2 { buffers = s2.buffers - 1 })
      ]
]

-- `vfs_lookup`; `cwd` is the working directory of the task
unfoldable pub vfs_lookup : FileTree → LookupState → ℕ → List ℕ → Bool → Result ℕ × LookupState
vfs_lookup t s cwd path parent_only =
    if get_or path 0 0 == b'/'
    then vfs_lookup_at t s t.root_node (drop 1 path) parent_only
    else vfs_lookup_at t s cwd path parent_only
