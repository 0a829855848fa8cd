-- ===== src/Mm/Slab/Freeing.antt =====
-- `slab_free` of kernel/mm/slab.c on a cache's slabs.
use monolith.Mm.Slab.{Slab, free_loop, free_object, object_at, slab_done}
use monolith.Mm.Slab.Calls.{IsPage, Slabs, has_page, live_in}
use monolith.Mm.Slab.Live.{IsSlab, freed_lem, freed_slab, is_live, live-below, live-in_use}
use monolith.Mm.Slab.Objects.{FitsPage, object_at-index, object_at-page, object_at_bounds}
use monolith.Prelude.{
  ==_iff, Bool-cases, List, [], arith, false, if◌then◌else◌, inl, inr, refl, sym, true, ℕ, ◌&&◌,
  ◌<◌, ◌==◌, ◌∙◌, ◌∷◌, ◌≡◌,
}

-- what `slab_free` does to a cache's slabs, for the object `i` on the page `p`
pub record Freed (n : ℕ) (ss : List Slab) (p i : ℕ) (ss' : List Slab) : Type 0 where
  pub sound : Slabs n ss'
  pub live_after :
      (q j : ℕ) → live_in n ss' q j ≡ (if (q == p) && (j == i) then false else live_in n ss q j)
  pub same_pages : (q : ℕ) → has_page q ss' ≡ has_page q ss

-- a live object is in range, and its page is a page
pub live_in_bounds :
    (n : ℕ) (ss : List Slab) (p i : ℕ) → Slabs n ss → live_in n ss p i ≡ true → IsPage p × (i < n)
unfolding live_in
live_in_bounds n [] p i v h = cc
live_in_bounds n (s ∷ rest) p i v h = elim (Bool-cases (s.page == p)) [
  | inl e ↦
      let same : s.page ≡ p = (==_iff s.page p).0 e in
      (rw (← same) v.1, (live-below n s v.0 i (ground (arith, h, e))).0)
  | inr e ↦ live_in_bounds n rest p i v.3 (ground (arith, h, e))
]

module _ (b n : ℕ) (f : FitsPage b n) where
  free_object_lem :
      (s : Slab) (i : ℕ) (v : IsSlab n s)
      → IsPage s.page
      → is_live n s i ≡ true
      → free_object b n (object_at b s.page i) s ≡ slab_done (freed_slab n s v i)
  unfolding free_object
  free_object_lem s i v aligned h =
      let low = (live-below n s v i h).0 in
      let (lo, hi) = object_at_bounds b n s.page i f aligned low in
      rw (object_at-index b n s.page i f aligned low) (ground (arith, lo, live-in_use n s v i h))

  Freed-here :
      (s : Slab) (rest : List Slab) (p i : ℕ) (v : Slabs n (s ∷ rest))
      → (s.page == p) ≡ true
      → is_live n s i ≡ true
      → Freed n (s ∷ rest) p i (freed_slab n s v.0 i ∷ rest)
  unfolding live_in has_page
  Freed-here s rest p i v e live =
      let (ok', after) = freed_lem n s v.0 i live in
      record {
        sound = (ok', v.1, v.2, v.3);
        live_after = λ q j. ground (arith, after j, e);
        same_pages = λ q. refl;
      }

  Freed-later :
      (s : Slab) (rest : List Slab) (p i : ℕ)
      → Slabs n (s ∷ rest)
      → (s.page == p) ≡ false
      → (rest' : List Slab) → Freed n rest p i rest'
      → Freed n (s ∷ rest) p i (s ∷ rest')
  unfolding live_in has_page
  Freed-later s rest p i v e rest' r = record {
    sound = (v.0, v.1, r.same_pages s.page ∙ v.2, r.sound);
    live_after = λ q j. ground (arith, r.live_after q j, e);
    same_pages = λ q. ground (arith, r.same_pages q);
  }

  pub free_loop-Freed :
      (ss : List Slab) (p i : ℕ)
      → Slabs n ss
      → live_in n ss p i ≡ true
      → (ss' : List Slab) × (free_loop b n (object_at b p i) ss ≡ slab_done ss')
        × Freed n ss p i ss'
  unfolding free_loop live_in has_page
  free_loop-Freed [] p i v h = cc
  free_loop-Freed (s ∷ rest) p i v h =
      let (page, low) = live_in_bounds n (s ∷ rest) p i v h in
      elim (Bool-cases (s.page == p)) [
        | inl e ↦
            let same : p ≡ s.page = sym ((==_iff s.page p).0 e) in
            let live : is_live n s i ≡ true = ground (arith, h, e) in
            (
              freed_slab n s v.0 i ∷ rest,
              rw (object_at-page b n p i f page low, e, same, free_object_lem s i v.0 v.1 live)
                  refl,
              Freed-here s rest p i v e live,
            )
        | inr e ↦
            let (rest', run, r) = free_loop-Freed rest p i v.3 (ground (arith, h, e)) in
            (
              s ∷ rest',
              rw (object_at-page b n p i f page low, e, run) refl,
              Freed-later s rest p i v e rest' r,
            )
      ]
