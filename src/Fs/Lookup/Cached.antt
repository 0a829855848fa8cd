-- ===== src/Fs/Lookup/Cached.antt =====
-- The directory cache in kernel/fs/lookup.c does not change what a lookup finds.
use mathlib.Core.Option.{some-injective}
use mathlib.Core.Path.{subst}
use monolith.Fs.Dcache.Names.{same_bytes, same_bytes-eq}
use monolith.Fs.Files.{is_type, s_ifdir}
use monolith.Fs.Lookup.{
  FileTree, LookupState, dot, dot_dot, entry_put, entry_ref, find_component, lookup_loop,
  next_entry, parent_entry, remember, traverse,
}
use monolith.Fs.Lookup.Split.{Components, IsComponent}
use monolith.Prelude.{
  ==_iff, Bool, Bool-cases, List, Option-cases, [], arith, false, if◌then◌else◌, inl, inr, none,
  not, refl, some, sym, true, ℕ, ◌&&◌, ◌==◌, ◌∙◌, ◌∷◌, ◌≡◌, ◌≢◌,
}
use monolith.Prelude.Errno.{Result, Result-cases, enoent, enotdir, err, ok}

-- a name that can stand in the cache
abbrev pub IsName : List ℕ → Type 0
IsName n = IsComponent n × (same_bytes n dot ≡ false) × (same_bytes n dot_dot ≡ false)

-- how entries are placed by the file systems: a file system answers for directories only, with
-- entries that have that parent and a name under which it finds them, and nothing is mounted on the
-- root of a mount
pub record IsPlaced (t : FileTree) : Type 0 where
  pub kept_at :
      (p e : ℕ) (n : List ℕ)
      → t.fs_lookup p n ≡ some e
      → (t.parent_of e ≡ p)
        × (t.fs_lookup p (t.name_of e) ≡ some e)
        × IsName (t.name_of e)
        × (p ≢ 0)
        × (is_type s_ifdir (t.mode_of p) ≡ true)
  pub flat_mounts : (v r : ℕ) → traverse t v ≡ some r → traverse t r ≡ some r

-- the file system of `p` has this entry for the name, and nothing is mounted on `p`
abbrev pub Hit : FileTree → ℕ → List ℕ → ℕ → Type 0
Hit t p n e =
    (t.fs_lookup p n ≡ some e) × (t.has_lookup p ≡ true) × (traverse t p ≡ some p) × IsName n

-- what the cache says is what the file systems say, of directories on which nothing is mounted
pub record IsCoherent (t : FileTree) (s : LookupState) : Type 0 where
  pub hit :
      (p e : ℕ) (n : List ℕ)
      → s.cached p n ≡ some e
      → (t.fs_lookup p n ≡ some e) × (t.has_lookup p ≡ true) × (traverse t p ≡ some p) × IsName n

-- the answer for a component, without the cache
unfoldable pub ask : FileTree → ℕ → List ℕ → Result ℕ
ask t v c =
    if t.has_lookup v then elim (t.fs_lookup v c) [ none ↦ ok 0 | some e ↦ ok e ] else err enoent

remember-IsCoherent :
    (t : FileTree) (s : LookupState) (p e : ℕ) (n : List ℕ)
    → IsPlaced t
    → IsCoherent t s
    → t.fs_lookup p n ≡ some e
    → t.has_lookup p ≡ true
    → traverse t p ≡ some p
    → IsName n
    → IsCoherent t (remember t s e)
unfolding remember
remember-IsCoherent t s p e n placed c f l tr name = record {
  hit = λ p' e' n' h.
      let (ep, again, named, live, dir) = placed.kept_at p e n f in
      elim (Bool-cases ((t.parent_of e == p') && same_bytes (t.name_of e) n')) [
        | inl b ↦
            let same : e ≡ e' = some-injective _ _ (sym (rw b refl) ∙ h) in
            let sp : p ≡ p' = sym ep ∙ (==_iff (t.parent_of e) p').0 (ground (arith, b)) in
            let sn : t.name_of e ≡ n' = same_bytes-eq (t.name_of e) n' (ground (arith, b)) in
            subst (Hit t p' n') same (
              subst (λ x. Hit t p' x e) sn
                (subst (λ x. Hit t x (t.name_of e) e) sp (again, l, tr, named)))
        | inr b ↦ c.hit p' e' n' (sym (rw b refl) ∙ h)
      ];
}

find_component-ask :
    (t : FileTree) (s : LookupState) (v : ℕ) (n : List ℕ)
    → IsPlaced t
    → IsCoherent t s
    → traverse t v ≡ some v
    → IsName n
    → ((find_component t s v n).0 ≡ ask t v n) × IsCoherent t (find_component t s v n).1
unfolding ask find_component
find_component-ask t s v n placed c tr name = elim (Option-cases (s.cached v n)) [
  | inr (e, h) ↦ let (f, l, _, _) = c.hit v e n h in rw (find_component, h, l, f) (refl, c)
  | inl h ↦ elim (Bool-cases (t.has_lookup v)) [
    | inr l ↦ rw (find_component, h, l) (refl, c)
    | inl l ↦ elim (Option-cases (t.fs_lookup v n)) [
      | inl f ↦ rw (find_component, h, l, f) (refl, c)
      | inr (e, f) ↦
          rw (find_component, h, l, f) (refl, remember-IsCoherent t s v e n placed c f l tr name)
    ]
  ]
]

-- the step and the loop without the cache
unfoldable pub ask_next : FileTree → ℕ → List ℕ → Result ℕ
ask_next t v c =
    if same_bytes c dot
    then ok v
    else if same_bytes c dot_dot
    then ok (parent_entry t v)
    else elim (traverse t v) [ none ↦ err enoent | some base ↦ ask t base c ]

unfoldable pub resolve : FileTree → Bool → ℕ → List (List ℕ) → Result ℕ
resolve t parent_only v [] = ok v
resolve t parent_only v (c ∷ cs) =
    let last : Bool = elim cs [ [] ↦ true | _ ∷ _ ↦ false ] in
    let rest : Result ℕ = elim (ask_next t v c) [
      | err e ↦ err e
      | ok w ↦ resolve t parent_only w cs
    ] in
    if v == 0
    then ok 0
    else if not (is_type s_ifdir (t.mode_of v))
    then err enotdir
    else if last && parent_only
    then ok v
    else rest

ref-IsCoherent :
    (t : FileTree) (s : LookupState) (v : ℕ) → IsCoherent t s → IsCoherent t (entry_ref s v)
unfolding entry_ref
ref-IsCoherent t s v c = record { hit = c.hit }

put-IsCoherent :
    (t : FileTree) (s : LookupState) (v : ℕ) → IsCoherent t s → IsCoherent t (entry_put s v)
unfolding entry_put
put-IsCoherent t s v c = record { hit = c.hit }

moved-IsCoherent :
    (t : FileTree) (s : LookupState) (v base : ℕ)
    → IsCoherent t s
    → IsCoherent t (if base == v then s else entry_ref (entry_put s v) base)
moved-IsCoherent t s v base c = elim (Bool-cases (base == v)) [
  | inl e ↦ rw e c
  | inr e ↦ rw e (ref-IsCoherent t (entry_put s v) base (put-IsCoherent t s v c))
]

-- the result is this one, and the cache stays coherent
abbrev pub Answers : FileTree → Result ℕ × LookupState → Result ℕ → Type 0
Answers t out r = (out.0 ≡ r) × IsCoherent t out.1

module _ (t : FileTree) (placed : IsPlaced t) where
  next_entry-Answers :
      (s : LookupState) (v : ℕ) (c : List ℕ)
      → IsCoherent t s
      → IsComponent c
      → Answers t (next_entry t s v c) (ask_next t v c)
  unfolding next_entry ask_next
  next_entry-Answers s v c k name = elim (Bool-cases (same_bytes c dot)) [
    | inl e ↦ rw (next_entry, e) (refl, put-IsCoherent t s v k)
    | inr e ↦ elim (Bool-cases (same_bytes c dot_dot)) [
      | inl d ↦ rw (next_entry, e, d) (refl, put-IsCoherent t s v k)
      | inr d ↦ elim (Option-cases (traverse t v)) [
        | inl m ↦ rw (next_entry, e, d, m) (refl, put-IsCoherent t s v k)
        | inr (base, m) ↦
            let moved = if base == v then s else entry_ref (entry_put s v) base in
            let (found, kept) =
              find_component-ask t moved base c placed (moved-IsCoherent t s v base k)
                (placed.flat_mounts v base m) (name, e, d) in
            rw (next_entry, e, d, m)
              (found, put-IsCoherent t (find_component t moved base c).1 base kept)
      ]
    ]
  ]

  step-Answers :
      (parent_only : Bool) (s : LookupState) (v : ℕ) (c : List ℕ) (cs : List (List ℕ))
      → IsCoherent t s
      → IsComponent c
      → ((s2 : LookupState) (w : ℕ)
          → IsCoherent t s2
          → Answers t (lookup_loop t parent_only s2 w cs) (resolve t parent_only w cs))
      → Answers t (lookup_loop t parent_only s v (c ∷ cs)) (resolve t parent_only v (c ∷ cs))
  unfolding lookup_loop resolve
  step-Answers parent_only s v c cs k name ih =
      let s1 : LookupState = entry_ref s v in
      let k1 : IsCoherent t s1 = ref-IsCoherent t s v k in
      let n : Result ℕ × LookupState = next_entry t s1 v c in
      let last : Bool = elim cs [ [] ↦ true | _ ∷ _ ↦ false ] in
      let (same, kept) = next_entry-Answers s1 v c k1 name in
      elim (Bool-cases (v == 0)) [
        | inl z ↦ rw z (refl, k)
        | inr z ↦ elim (Bool-cases (is_type s_ifdir (t.mode_of v))) [
          | inr d ↦ rw (z, d) (refl, put-IsCoherent t s1 v k1)
          | inl d ↦ elim (Bool-cases (last && parent_only)) [
            | inl l ↦ rw (z, d, l) (refl, put-IsCoherent t s1 v k1)
            | inr l ↦ elim (Result-cases n.0) [
              | inr (e, r) ↦ rw (z, d, l, sym same ∙ r, r) (refl, kept)
              | inl (w, r) ↦ rw (z, d, l, sym same ∙ r, r) (ih n.1 w kept)
            ]
          ]
        ]
      ]

  pub lookup_loop-Answers :
      (parent_only : Bool) (s : LookupState) (v : ℕ) (cs : List (List ℕ))
      → IsCoherent t s
      → Components cs
      → Answers t (lookup_loop t parent_only s v cs) (resolve t parent_only v cs)
  unfolding lookup_loop resolve
  lookup_loop-Answers parent_only s v [] k names = (refl, k)
  lookup_loop-Answers parent_only s v (c ∷ cs) k names =
      step-Answers parent_only s v c cs k names.0
        (λ s2 w k2. lookup_loop-Answers parent_only s2 w cs k2 names.1)
