-- ===== src/Fs/Dcache/Finding.antt =====
-- The directory cache of kernel/fs/ventry.c as a map from a parent and a name to an entry.
use mathlib.Core.Path.{fun_ext, subst}
use native.Mathlib.Decide.{ℕ_discrete}
use monolith.Fs.Dcache.{Ventry, dcache_get, dcache_hash, dcache_insert, entry_hash, table_size}
use monolith.Fs.Dcache.Names.{
  IsString, dcache_hash-lt, entry_matches-names_it, names_it, names_it-hash,
}
use monolith.Libk.Memory.{strlen}
use monolith.Prelude.{
  Bool, Bool-cases, List, ap, arith, if◌then◌else◌, inl, inr, length, refl, some, ℕ, ◌<◌, ◌∙◌, ◌≡◌,
}
use monolith.Prelude.Chains.{bucket, find, find-push_front_ne, find-push_front_self, push_front}

-- The test of the walk, read as equality of parents and strings.
pub dcache_get-names_it :
    (t : List (List Ventry)) (parent : ℕ) (q : List ℕ)
    → IsString q
    → dcache_get t parent q ≡ find (names_it parent q) (bucket t (dcache_hash parent q (strlen q)))
unfolding dcache_get
dcache_get-names_it t parent q h =
    ap (λ p. find p (bucket t (dcache_hash parent q (strlen q))))
      (fun_ext λ v. entry_matches-names_it parent q v h)

pub entry_hash-lt : (v : Ventry) → entry_hash v < table_size
unfolding entry_hash
entry_hash-lt v = dcache_hash-lt v.parent v.name (strlen v.name)

-- After `dcache_insert`, `dcache_get` finds the new entry under its own parent and name, and under
-- every other parent and name what it found before.
pub dcache_get-insert :
    (t : List (List Ventry)) (v : Ventry) (parent : ℕ) (q : List ℕ)
    → length t ≡ table_size
    → IsString q
    → dcache_get (dcache_insert t v) parent q
      ≡ (if names_it parent q v then some v else dcache_get t parent q)
unfolding dcache_insert
dcache_get-insert t v parent q size h =
    let k : ℕ = dcache_hash parent q (strlen q) in
    let p : Ventry → Bool = names_it parent q in
    let low : entry_hash v < length t = omega (arith, size, entry_hash-lt v) in
    rw
      (
        dcache_get-names_it (push_front t (entry_hash v) v) parent q h,
        dcache_get-names_it t parent q h,
      )
      (elim (ℕ_discrete (entry_hash v) k) [
        | yes e ↦
            subst
              (λ j.
                find p (bucket (push_front t (entry_hash v) v) j)
                ≡ (if names_it parent q v then some v else find p (bucket t j)))
              e (find-push_front_self p t (entry_hash v) v low)
        | no ne ↦
            find-push_front_ne p t (entry_hash v) k v ne
            ∙ (elim (Bool-cases (names_it parent q v)) [
              | inl it ↦ absurd (ne (names_it-hash parent q v it))
              | inr it ↦ rw it refl
            ])
      ])
