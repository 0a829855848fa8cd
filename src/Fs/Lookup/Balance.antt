-- ===== src/Fs/Lookup/Balance.antt =====
-- What a lookup of kernel/fs/lookup.c leaves behind: reference counts and buffers.
use mathlib.Core.Path.{subst}
use monolith.Fs.Dcache.Names.{same_bytes}
use monolith.Fs.Files.{is_type, s_ifdir}
use monolith.Fs.Lookup.{
  FileTree, LookupState, components, dot, dot_dot, entry_put, entry_ref, find_component, finish,
  lookup_loop, next_entry, remember, traverse, vfs_lookup_at,
}
use monolith.Prelude.{
  ==_iff, Bool, Bool-cases, List, Option-cases, [], arith, false, if◌then◌else◌, inl, inr, none,
  refl, some, sym, true, ℕ, ◌&&◌, ◌+◌, ◌-◌, ◌<◌, ◌==◌, ◌∙◌, ◌∷◌, ◌≡◌, ◌≤◌,
}
use monolith.Prelude.Errno.{Errno, Result, Result-cases, err, ok}
use monolith.Prelude.Words.{u32_mod}

-- the counts are 32-bit words
abbrev pub Counts : LookupState → Type 0
Counts s = (x : ℕ) → s.refs x < u32_mod

abbrev pub SameRefs : LookupState → LookupState → Type 0
SameRefs s s' = (x : ℕ) → s'.refs x ≡ s.refs x

put-ref :
    (s s' : LookupState) (v : ℕ)
    → Counts s
    → SameRefs (entry_ref s v) s'
    → SameRefs s (entry_put s' v)
unfolding entry_ref entry_put
put-ref s s' v c h x = ground (arith, c x, h x)

find_component-refs :
    (t : FileTree) (s : LookupState) (v : ℕ) (component : List ℕ)
    → SameRefs s (find_component t s v component).1
unfolding find_component remember
find_component-refs t s v component x = ground arith

find_component-buffers :
    (t : FileTree) (s : LookupState) (v : ℕ) (component : List ℕ)
    → (find_component t s v component).1.buffers ≡ s.buffers
unfolding find_component remember
find_component-buffers t s v component = ground arith

Counts-same : (s s' : LookupState) → Counts s → SameRefs s s' → Counts s'
Counts-same s s' c h x = subst (λ (n : ℕ). n < u32_mod) (sym (h x)) (c x)

ref-buffers : (s : LookupState) (v : ℕ) → (entry_ref s v).buffers ≡ s.buffers
unfolding entry_ref
ref-buffers s v = refl

put_ref-buffers : (s : LookupState) (v : ℕ) → (entry_put (entry_ref s v) v).buffers ≡ s.buffers
unfolding entry_ref entry_put
put_ref-buffers s v = refl

module _ (t : FileTree) where
  -- the branch of an ordinary component, with the directory that stands for `v`
  found-refs :
      (s : LookupState) (v base : ℕ) (component : List ℕ)
      → Counts s
      → let moved =
          if base == v then entry_ref s v else entry_ref (entry_put (entry_ref s v) v) base in
        SameRefs s (entry_put (find_component t moved base component).1 base)
  found-refs s v base component c x = elim (Bool-cases (base == v)) [
    | inl e ↦ rw e (
        subst
          (λ b. (entry_put (find_component t (entry_ref s v) b component).1 b).refs x ≡ s.refs x)
          (sym ((==_iff base v).0 e))
          (put-ref s (find_component t (entry_ref s v) v component).1 v c
            (find_component-refs t (entry_ref s v) v component) x))
    | inr e ↦
        let s0 : LookupState = entry_put (entry_ref s v) v in
        let same : SameRefs s s0 = put-ref s (entry_ref s v) v c (λ y. refl) in
        rw e (
          put-ref s0 (find_component t (entry_ref s0 base) base component).1 base
            (Counts-same s s0 c same) (find_component-refs t (entry_ref s0 base) base component) x
          ∙ same x)
  ]

  next_entry-refs :
      (s : LookupState) (v : ℕ) (component : List ℕ)
      → Counts s
      → SameRefs s (next_entry t (entry_ref s v) v component).1
  unfolding next_entry
  next_entry-refs s v component c x = elim (Bool-cases (same_bytes component dot)) [
    | inl e ↦ rw (next_entry, e) (put-ref s (entry_ref s v) v c (λ y. refl) x)
    | inr e ↦ elim (Bool-cases (same_bytes component dot_dot)) [
      | inl d ↦ rw (next_entry, e, d) (put-ref s (entry_ref s v) v c (λ y. refl) x)
      | inr d ↦ elim (Option-cases (traverse t v)) [
        | inl m ↦ rw (next_entry, e, d, m) (put-ref s (entry_ref s v) v c (λ y. refl) x)
        | inr (base, m) ↦ rw (next_entry, e, d, m) (found-refs s v base component c x)
      ]
    ]
  ]

  next_entry-buffers :
      (s : LookupState) (v : ℕ) (component : List ℕ)
      → (next_entry t s v component).1.buffers ≡ s.buffers
  unfolding next_entry entry_put entry_ref
  next_entry-buffers s v component = elim (Bool-cases (same_bytes component dot)) [
    | inl e ↦ rw (next_entry, e) refl
    | inr e ↦ elim (Bool-cases (same_bytes component dot_dot)) [
      | inl d ↦ rw (next_entry, e, d) refl
      | inr d ↦ elim (Option-cases (traverse t v)) [
        | inl m ↦ rw (next_entry, e, d, m) refl
        | inr (base, m) ↦
            rw (next_entry, e, d, m)
              (find_component-buffers t (if base == v then s else entry_ref (entry_put s v) base)
                  base component
                ∙ ground arith)
      ]
    ]
  ]

  -- a lookup that went through the loop, in the state `s'`
  abbrev Kept : LookupState → LookupState → Type 0
  Kept s s' = SameRefs s s' × (s'.buffers ≡ s.buffers)

  Kept-trans : (s s' s'' : LookupState) → Kept s s' → Kept s' s'' → Kept s s''
  Kept-trans s s' s'' a b = (λ x. b.0 x ∙ a.0 x, b.1 ∙ a.1)

  -- the step from one component to the next
  step-Kept :
      (parent_only : Bool) (s : LookupState) (v : ℕ) (d : List ℕ) (ds : List (List ℕ))
      → Counts s
      → ((s2 : LookupState) (w : ℕ) → Counts s2 → Kept s2 (lookup_loop t parent_only s2 w ds).1)
      → Kept s (lookup_loop t parent_only s v (d ∷ ds)).1
  unfolding lookup_loop
  step-Kept parent_only s v d ds c ih =
      let s1 : LookupState = entry_ref s v in
      let n : Result ℕ × LookupState = next_entry t s1 v d in
      let last : Bool = elim ds [ [] ↦ true | _ ∷ _ ↦ false ] in
      let back : Kept s (entry_put s1 v) = (put-ref s s1 v c (λ y. refl), put_ref-buffers s v) in
      let onward : Kept s n.1 =
        (next_entry-refs s v d c, next_entry-buffers s1 v d ∙ ref-buffers s v) in
      elim (Bool-cases (v == 0)) [
        | inl z ↦ rw z (λ x. refl, refl)
        | inr z ↦ elim (Bool-cases (is_type s_ifdir (t.mode_of v))) [
          | inr k ↦ rw (z, k) back
          | inl k ↦ elim (Bool-cases (last && parent_only)) [
            | inl l ↦ rw (z, k, l) back
            | inr l ↦ elim (Result-cases n.0) [
              | inr (e, r) ↦ rw (z, k, l, r) onward
              | inl (w, r) ↦
                  rw (z, k, l, r)
                    (Kept-trans s n.1 (lookup_loop t parent_only n.1 w ds).1 onward
                      (ih n.1 w (Counts-same s n.1 c onward.0)))
            ]
          ]
        ]
      ]

  lookup_loop-Kept :
      (parent_only : Bool) (s : LookupState) (v : ℕ) (cs : List (List ℕ))
      → Counts s
      → Kept s (lookup_loop t parent_only s v cs).1
  unfolding lookup_loop
  lookup_loop-Kept parent_only s v [] c = (λ x. refl, refl)
  lookup_loop-Kept parent_only s v (d ∷ ds) c =
      step-Kept parent_only s v d ds c (λ s2 w c2. lookup_loop-Kept parent_only s2 w ds c2)

-- the state has the reference counts of `s`, and no more than one buffer more, none on success
abbrev pub Balanced : LookupState → Result ℕ × LookupState → Type 0
Balanced s out =
    SameRefs s out.1
    × ((r : ℕ) → out.0 ≡ ok r → out.1.buffers ≡ s.buffers)
    × (out.1.buffers ≤ s.buffers + 1)

module _ (t : FileTree) (s : LookupState) (parent : ℕ) (path : List ℕ) (parent_only : Bool) where
  -- the state in which the loop starts, and what it comes to
  abbrev with_buffer : LookupState
  with_buffer = record s { buffers = s.buffers + 1 }

  abbrev looped : Result ℕ × LookupState
  looped = lookup_loop t parent_only with_buffer parent (components path)

  pub lookup_hit :
      (e : ℕ)
      → s.cached parent path ≡ some e
      → vfs_lookup_at t s parent path parent_only
        ≡ (finish t (if parent_only then t.parent_of e else e), s)
  unfolding vfs_lookup_at
  lookup_hit e h = rw (vfs_lookup_at, h) refl

  pub lookup_failed :
      (e : Errno)
      → s.cached parent path ≡ none
      → looped.0 ≡ err e
      → vfs_lookup_at t s parent path parent_only ≡ (err e, looped.1)
  unfolding vfs_lookup_at
  lookup_failed e h r = rw (vfs_lookup_at, h, r) refl

  pub lookup_reached :
      (v : ℕ)
      → s.cached parent path ≡ none
      → looped.0 ≡ ok v
      → vfs_lookup_at t s parent path parent_only
        ≡ (finish t v, record looped.1 { buffers = looped.1.buffers - 1 })
  unfolding vfs_lookup_at
  lookup_reached v h r = rw (vfs_lookup_at, h, r) refl

  -- A lookup leaves every reference count as it was, on every path through it. When it succeeds it
  -- has freed the buffer that it allocated. When it fails there may be one buffer more.
  pub vfs_lookup_at-Balanced : Counts s → Balanced s (vfs_lookup_at t s parent path parent_only)
  vfs_lookup_at-Balanced c =
      let k : Kept t with_buffer looped.1 =
        lookup_loop-Kept t parent_only with_buffer parent (components path) c in
      elim (Option-cases (s.cached parent path)) [
        | inr (e, h) ↦ rw (lookup_hit e h) (λ x. refl, λ r q. refl, omega arith)
        | inl h ↦ elim (Result-cases looped.0) [
          | inl (v, r) ↦
              rw (lookup_reached v h r) (k.0, λ w q. omega (arith, k.1), omega (arith, k.1))
          | inr (e, r) ↦ rw (lookup_failed e h r) (k.0, λ w q. cc, omega (arith, k.1))
        ]
      ]

  -- A lookup that fails inside the loop does not free its buffer.
  pub lookup_leaks :
      (e : Errno)
      → Counts s
      → s.cached parent path ≡ none
      → looped.0 ≡ err e
      → (vfs_lookup_at t s parent path parent_only).1.buffers ≡ s.buffers + 1
  lookup_leaks e c h r =
      rw (lookup_failed e h r)
        (lookup_loop-Kept t parent_only with_buffer parent (components path) c).1
