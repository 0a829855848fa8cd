-- ===== src/Fs/Lookup/Transparent.antt =====
-- `vfs_lookup_at` and `vfs_lookup` of kernel/fs/lookup.c, with and without the directory cache.
use monolith.Fs.Lookup.{
  FileTree, LookupState, components, finish, lookup_loop, vfs_lookup, vfs_lookup_at,
}
use monolith.Fs.Lookup.Balance.{lookup_failed, lookup_hit, lookup_reached}
use monolith.Fs.Lookup.Cached.{
  Answers, Hit, IsCoherent, IsPlaced, ask, ask_next, lookup_loop-Answers, resolve,
}
use monolith.Fs.Lookup.Split.{components-Components, components-IsComponent}
use monolith.Prelude.{
  ==-ne, Bool, Bool-cases, List, Option-cases, drop, false, get_or, if◌then◌else◌, inl, inr, none,
  refl, sym, true, ℕ, ◌+◌, ◌==◌, ◌∙◌, ◌≡◌,
}
use monolith.Prelude.Errno.{Result, Result-cases, err, ok}

-- the state with nothing in the cache
abbrev pub forgotten : LookupState → LookupState
forgotten s = record s { cached = λ p n. none }

forgotten-IsCoherent : (t : FileTree) (s : LookupState) → IsCoherent t (forgotten s)
forgotten-IsCoherent t s = record { hit = λ p e n h. cc }

-- what a lookup answers
abbrev conclude : FileTree → Result ℕ → Result ℕ
conclude t (err e) = err e
conclude t (ok v) = finish t v

resolve_name :
    (t : FileTree) (p e : ℕ) (n : List ℕ) (parent_only : Bool)
    → IsPlaced t
    → Hit t p n e
    → conclude t (resolve t parent_only p (components n))
      ≡ finish t (if parent_only then t.parent_of e else e)
unfolding resolve ask_next ask
resolve_name t p e n true placed (f, l, tr, name) =
    let (ep, again, named, live, dir) = placed.kept_at p e n f in
    rw (components-IsComponent n name.0, ep, ==-ne p 0 live, dir) refl
resolve_name t p e n false placed (f, l, tr, name) =
    let (ep, again, named, live, dir) = placed.kept_at p e n f in
    rw (components-IsComponent n name.0, ==-ne p 0 live, dir)
      (rw (ask_next, name.1, name.2, tr, l, f) refl)

module _ (t : FileTree) (placed : IsPlaced t) where
  lookup_answer :
      (s : LookupState) (parent : ℕ) (path : List ℕ) (parent_only : Bool)
      → IsCoherent t s
      → Answers t
          (vfs_lookup_at t s parent path parent_only)
          (conclude t (resolve t parent_only parent (components path)))
  lookup_answer s parent path parent_only k = elim (Option-cases (s.cached parent path)) [
    | inr (e, h) ↦
        rw (lookup_hit t s parent path parent_only e h)
          (sym (resolve_name t parent e path parent_only placed (k.hit parent e path h)), k)
    | inl h ↦
        let start : LookupState = record s { buffers = s.buffers + 1 } in
        let (same, kept) =
          lookup_loop-Answers t placed parent_only start parent (components path)
            (record { hit = k.hit }) (components-Components path) in
        elim (Result-cases (lookup_loop t parent_only start parent (components path)).0) [
          | inl (v, r) ↦
              rw (lookup_reached t s parent path parent_only v h r, sym same ∙ r)
                (refl, record { hit = kept.hit })
          | inr (e, r) ↦
              rw (lookup_failed t s parent path parent_only e h r, sym same ∙ r) (refl, kept)
        ]
  ]

  at_forgotten :
      (s : LookupState) (dir : ℕ) (path : List ℕ) (parent_only : Bool)
      → IsCoherent t s
      → Answers t
          (vfs_lookup_at t s dir path parent_only)
          (vfs_lookup_at t (forgotten s) dir path parent_only).0
  at_forgotten s dir path parent_only k =
      let (same, kept) = lookup_answer s dir path parent_only k in
      (
        same ∙ sym (lookup_answer (forgotten s) dir path parent_only (forgotten-IsCoherent t s)).0,
        kept,
      )

  -- Let the file systems answer for directories only, with entries that have that directory as parent
  -- and are found in it under their own names, and let nothing be mounted on the root of a mount. As
  -- long as the cache holds nothing but entries that the file systems have, under names in
  -- directories on which nothing is mounted, `vfs_lookup` gives the result that it gives with an
  -- empty cache, and leaves such a cache.
  pub vfs_lookup-forgotten :
      (s : LookupState) (cwd : ℕ) (path : List ℕ) (parent_only : Bool)
      → IsCoherent t s
      → ((vfs_lookup t s cwd path parent_only).0
          ≡ (vfs_lookup t (forgotten s) cwd path parent_only).0)
        × IsCoherent t (vfs_lookup t s cwd path parent_only).1
  unfolding vfs_lookup
  vfs_lookup-forgotten s cwd path parent_only k = elim (Bool-cases (get_or path 0 0 == b'/')) [
    | inl e ↦ rw (vfs_lookup, e) (at_forgotten s t.root_node (drop 1 path) parent_only k)
    | inr e ↦ rw (vfs_lookup, e) (at_forgotten s cwd path parent_only k)
  ]
