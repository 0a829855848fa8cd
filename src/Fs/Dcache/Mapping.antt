-- ===== src/Fs/Dcache/Mapping.antt =====
-- The directory cache of kernel/fs/ventry.c as a map that entries are put into and taken out of.
use mathlib.Core.Path.{subst}
use native.Mathlib.Decide.{ℕ_discrete}
use monolith.Fs.Dcache.{
  Ventry, dcache_get, dcache_hash, dcache_insert, dcache_remove, drop_entry, entry_hash, table_size,
}
use monolith.Fs.Dcache.Finding.{dcache_get-names_it, entry_hash-lt}
use monolith.Fs.Dcache.Names.{
  IsString, c_string, c_string-IsString, entry_hash-string, names_it, names_it-hash,
}
use monolith.Fs.Dcache.Removing.{IsTidy, NoneLike, Tidy, find-drop_entry, is_twin}
use monolith.Libk.Memory.{strlen}
use monolith.Prelude.{
  Bool, Bool-cases, List, [], ap, arith, false, get_or, get_or-set_ne, get_or-set_self,
  if◌then◌else◌, inl, inr, length, none, refl, set, some, sym, ℕ, ◌<◌, ◌==◌, ◌∙◌, ◌∷◌, ◌≡◌,
}
use monolith.Prelude.Chains.{bucket, find, push_front}

-- After `dcache_remove` of an entry that the cache holds, `dcache_get` finds nothing under that
-- entry's parent and name, and under every other parent and name what it found before; the cache
-- must be tidy.
pub dcache_get-remove :
    (t : List (List Ventry)) (e : Ventry) (parent : ℕ) (q : List ℕ)
    → length t ≡ table_size
    → IsTidy t
    → dcache_get t e.parent (c_string e.name) ≡ some e
    → IsString q
    → dcache_get (dcache_remove t e) parent q
      ≡ (if names_it parent q e then none else dcache_get t parent q)
unfolding dcache_remove
dcache_get-remove t e parent q size tidy held h =
    let h0 : ℕ = entry_hash e in
    let k : ℕ = dcache_hash parent q (strlen q) in
    let p : Ventry → Bool = names_it parent q in
    let low : h0 < length t = omega (arith, size, entry_hash-lt e) in
    let t' : List (List Ventry) = set t h0 (drop_entry e.address (bucket t h0)) in
    let found : find (names_it e.parent (c_string e.name)) (bucket t h0) ≡ some e =
      rw (entry_hash-string e) (
        sym (dcache_get-names_it t e.parent (c_string e.name) (c_string-IsString e.name)) ∙ held) in
    let dropped : find p (bucket t' h0) ≡ (if p e then none else find p (bucket t h0)) =
      ap (find p) (get_or-set_self t h0 (drop_entry e.address (bucket t h0)) [] low)
      ∙ find-drop_entry parent q e (bucket t h0) (tidy h0) found in
    rw (dcache_get-names_it t' parent q h, dcache_get-names_it t parent q h)
      (elim (ℕ_discrete h0 k) [
        | yes same ↦
            subst (λ j. find p (bucket t' j) ≡ (if p e then none else find p (bucket t j))) same
              dropped
        | no ne ↦
            ap (find p) (get_or-set_ne t h0 k (drop_entry e.address (bucket t h0)) [] ne)
            ∙ (elim (Bool-cases (p e)) [
              | inl it ↦ absurd (ne (names_it-hash parent q e it))
              | inr it ↦ rw it refl
            ])
      ])

-- no entry of a chain has this address
abbrev pub NoAddress : ℕ → List Ventry → Type 0
NoAddress a [] = Unit {0}
NoAddress a (w ∷ ws) = ((a == w.address) ≡ false) × NoAddress a ws

new-NoneLike :
    (v : Ventry) (vs : List Ventry)
    → NoAddress v.address vs
    → find (names_it v.parent (c_string v.name)) vs ≡ none
    → NoneLike v vs
unfolding find
new-NoneLike v [] a f = tt
new-NoneLike v (w ∷ ws) a f = elim (Bool-cases (is_twin v w)) [
  | inl it ↦ absurd (ground (arith, f, it))
  | inr other ↦ (a.0, other, new-NoneLike v ws a.1 (sym (rw other refl) ∙ f))
]

-- `dcache_insert` of an entry at a new address keeps the cache tidy, when `dcache_get` has just found
-- nothing under its parent and name.
pub insert-IsTidy :
    (t : List (List Ventry)) (v : Ventry)
    → length t ≡ table_size
    → IsTidy t
    → NoAddress v.address (bucket t (entry_hash v))
    → dcache_get t v.parent (c_string v.name) ≡ none
    → IsTidy (dcache_insert t v)
unfolding dcache_insert push_front
insert-IsTidy t v size tidy a absent k =
    let h0 : ℕ = entry_hash v in
    let low : h0 < length t = omega (arith, size, entry_hash-lt v) in
    let none_found : find (names_it v.parent (c_string v.name)) (bucket t h0) ≡ none =
      rw (entry_hash-string v) (
        sym (dcache_get-names_it t v.parent (c_string v.name) (c_string-IsString v.name))
        ∙ absent) in
    elim (ℕ_discrete h0 k) [
      | yes same ↦
          subst (λ j. Tidy (get_or (set t h0 (v ∷ bucket t h0)) j [])) same
            (subst Tidy (sym (get_or-set_self t h0 (v ∷ bucket t h0) [] low))
              (new-NoneLike v (bucket t h0) a none_found, tidy h0))
      | no ne ↦ subst Tidy (sym (get_or-set_ne t h0 k (v ∷ bucket t h0) [] ne)) (tidy k)
    ]
