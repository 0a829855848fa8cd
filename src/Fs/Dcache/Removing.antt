-- ===== src/Fs/Dcache/Removing.antt =====
-- `dcache_remove` of kernel/fs/ventry.c, on a cache in which no two entries of a chain have the same
-- address, or the same parent and name.
use mathlib.Core.Option.{some-injective}
use mathlib.Core.Path.{subst}
use monolith.Fs.Dcache.{Ventry, drop_entry}
use monolith.Fs.Dcache.Names.{c_string, names_it, same_bytes, same_bytes-eq, same_bytes_self}
use monolith.Prelude.{
  ==-self, Bool, Bool-cases, List, [], arith, false, if◌then◌else◌, inl, inr, none, refl, some, sym,
  true, ℕ, ◌&&◌, ◌==◌, ◌∙◌, ◌∷◌, ◌≡◌,
}
use monolith.Prelude.Chains.{bucket, find}

-- the same parent and name
abbrev pub is_twin : Ventry → Ventry → Bool
is_twin v w = (w.parent == v.parent) && same_bytes (c_string w.name) (c_string v.name)

abbrev pub NoneLike : Ventry → List Ventry → Type 0
NoneLike v [] = Unit {0}
NoneLike v (w ∷ ws) = ((v.address == w.address) ≡ false) × (is_twin v w ≡ false) × NoneLike v ws

abbrev pub Tidy : List Ventry → Type 0
Tidy [] = Unit {0}
Tidy (v ∷ vs) = NoneLike v vs × Tidy vs

-- every chain of the cache is tidy
abbrev pub IsTidy : List (List Ventry) → Type 0
IsTidy t = (h : ℕ) → Tidy (bucket t h)

twins :
    (parent : ℕ) (q : List ℕ) (v w : Ventry)
    → names_it parent q v ≡ true
    → names_it parent q w ≡ true
    → is_twin v w ≡ true
twins parent q v w hv hw =
    let ev : c_string v.name ≡ q = same_bytes-eq (c_string v.name) q (ground (arith, hv)) in
    let ew : c_string w.name ≡ q = same_bytes-eq (c_string w.name) q (ground (arith, hw)) in
    let same : same_bytes (c_string w.name) (c_string v.name) ≡ true =
      rw (ew, ev) (same_bytes_self q) in
    ground (arith, hv, hw, same)

-- what is found in a chain is no twin of an entry that has none in it
found-NoneLike :
    (p : Ventry → Bool) (v e : Ventry) (vs : List Ventry)
    → NoneLike v vs
    → find p vs ≡ some e
    → ((v.address == e.address) ≡ false) × (is_twin v e ≡ false)
unfolding find
found-NoneLike p v e [] n f = cc
found-NoneLike p v e (w ∷ ws) n f = elim (Bool-cases (p w)) [
  | inl it ↦
      let same : w ≡ e = some-injective _ _ (sym (rw it refl) ∙ f) in
      subst (λ x. ((v.address == x.address) ≡ false) × (is_twin v x ≡ false)) same (n.0, n.1)
  | inr other ↦ found-NoneLike p v e ws n.2 (sym (rw other refl) ∙ f)
]

module _ (parent : ℕ) (q : List ℕ) where
  -- A chain has no second entry for a parent and a name.
  no_twin :
      (v : Ventry) (vs : List Ventry)
      → names_it parent q v ≡ true
      → NoneLike v vs
      → find (names_it parent q) vs ≡ none
  unfolding find
  no_twin v [] it n = refl
  no_twin v (w ∷ ws) it n = elim (Bool-cases (names_it parent q w)) [
    | inl both ↦ let t = twins parent q v w it both in cc (t, n.1)
    | inr other ↦ rw other (no_twin v ws it n.2)
  ]

  drop_head :
      (e : Ventry) (vs : List Ventry)
      → NoneLike e vs
      → find (names_it parent q) (drop_entry e.address (e ∷ vs))
        ≡ (if names_it parent q e then none else find (names_it parent q) (e ∷ vs))
  unfolding find drop_entry
  drop_head e vs n = elim (Bool-cases (names_it parent q e)) [
    | inl it ↦ rw (==-self e.address, it) (no_twin e vs it n)
    | inr other ↦ rw (==-self e.address, other) refl
  ]

  drop_later :
      (e v : Ventry) (vs : List Ventry)
      → (v.address == e.address) ≡ false
      → is_twin v e ≡ false
      → find (names_it parent q) (drop_entry e.address vs)
        ≡ (if names_it parent q e then none else find (names_it parent q) vs)
      → find (names_it parent q) (drop_entry e.address (v ∷ vs))
        ≡ (if names_it parent q e then none else find (names_it parent q) (v ∷ vs))
  unfolding find drop_entry
  drop_later e v vs a t ih = elim (Bool-cases (names_it parent q v)) [
    | inl it ↦ elim (Bool-cases (names_it parent q e)) [
      | inl both ↦ let k = twins parent q v e it both in cc (t, k)
      | inr other ↦ rw (a, other, it) refl
    ]
    | inr other ↦ rw (a, other) ih
  ]

  -- The entry `e` goes out of the chain in which it is found; others are found as before.
  pub find-drop_entry :
      (e : Ventry) (vs : List Ventry)
      → Tidy vs
      → find (names_it e.parent (c_string e.name)) vs ≡ some e
      → find (names_it parent q) (drop_entry e.address vs)
        ≡ (if names_it parent q e then none else find (names_it parent q) vs)
  unfolding find
  find-drop_entry e [] t f = cc
  find-drop_entry e (v ∷ vs) t f = elim (Bool-cases (names_it e.parent (c_string e.name) v)) [
    | inl it ↦
        let same : e ≡ v = sym (some-injective _ _ (sym (rw it refl) ∙ f)) in
        subst
          (λ x.
            find (names_it parent q) (drop_entry x.address (v ∷ vs))
            ≡ (if names_it parent q x then none else find (names_it parent q) (v ∷ vs)))
          (sym same) (drop_head v vs t.0)
    | inr other ↦
        let f' : find (names_it e.parent (c_string e.name)) vs ≡ some e = sym (rw other refl) ∙ f in
        let (a, n) = found-NoneLike (names_it e.parent (c_string e.name)) v e vs t.0 f' in
        drop_later e v vs a n (find-drop_entry e vs t.1 f')
  ]
