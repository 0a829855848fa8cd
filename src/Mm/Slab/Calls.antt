-- ===== src/Mm/Slab/Calls.antt =====
-- A cache of kernel/mm/slab.c as a set of live objects: what `slab_alloc` adds, what `slab_free`
-- takes away, and where the objects lie.
use monolith.Mm.Slab.{Slab, alloc_loop, new_slab, slab_done, take_object}
use monolith.Mm.Slab.Live.{IsSlab, is_live, new_slab-IsSlab, new_slab-is_live, take_object_lem}
use monolith.Prelude.{
  ==-ne, ==-self, Bool, Bool-cases, List, [], arith, false, if◌then◌else◌, inl, inr, ltb, refl, sym,
  true, ℕ, ◌%◌, ◌&&◌, ◌+◌, ◌<◌, ◌==◌, ◌||◌, ◌∷◌, ◌≡◌, ◌≢◌, ◌≤◌,
}
use monolith.Prelude.Words.{page_size, u64_mod}

-- the address of a page
abbrev pub IsPage : ℕ → Type 0
IsPage p = (p % page_size ≡ 0) × (p + page_size ≤ u64_mod)

unfoldable pub has_page : ℕ → List Slab → Bool
has_page q [] = false
has_page q (s ∷ rest) = (s.page == q) || has_page q rest

-- is the object `i` of the slab on the page `q` given away
unfoldable pub live_in : ℕ → List Slab → ℕ → ℕ → Bool
unfolding is_live
live_in n [] q i = false
live_in n (s ∷ rest) q i = if s.page == q then is_live n s i else live_in n rest q i

-- sound slabs, each on a page of its own
abbrev pub Slabs : ℕ → List Slab → Type 0
Slabs n [] = Unit {0}
Slabs n (s ∷ rest) = IsSlab n s × IsPage s.page × (has_page s.page rest ≡ false) × Slabs n rest

-- what `slab_alloc` does to a cache's slabs, when it gives the object `i` on the page `p`
pub record Alloced (n page : ℕ) (ss : List Slab) (p i : ℕ) (ss' : List Slab) : Type 0 where
  pub below : i < n
  pub on_page : IsPage p
  pub was_free : live_in n ss p i ≡ false
  pub sound : Slabs n ss'
  pub live_after :
      (q j : ℕ) → live_in n ss' q j ≡ (if (q == p) && (j == i) then true else live_in n ss q j)
  pub elsewhere : (q : ℕ) → has_page q ss ≡ false → q ≢ page → p ≢ q
  pub no_other_page : (q : ℕ) → has_page q ss ≡ false → q ≢ page → has_page q ss' ≡ false

no_page-live_in : (n q i : ℕ) (ss : List Slab) → has_page q ss ≡ false → live_in n ss q i ≡ false
unfolding has_page live_in
no_page-live_in n q i [] h = refl
no_page-live_in n q i (s ∷ rest) h = ground (arith, no_page-live_in n q i rest)

module _ (n page word : ℕ) (fits : 2 ≤ n) (aligned : IsPage page) where
  new_slab-page : (new_slab n page word).page ≡ page
  unfolding new_slab
  new_slab-page = refl

  alloc-new : Alloced n page [] page 0 (new_slab n page word ∷ [])
  unfolding live_in has_page
  alloc-new = record {
    below = omega arith;
    on_page = aligned;
    was_free = refl;
    sound = (new_slab-IsSlab n page word fits, rw new_slab-page aligned, refl, tt);
    live_after = λ q j. rw new_slab-page (ground (arith, new_slab-is_live n page word j fits));
    elsewhere = λ q h e x. e (sym x);
    no_other_page = λ q h e. rw (new_slab-page, ==-ne page q (λ x. e (sym x))) refl;
  }

  -- the object comes from a slab that has one
  alloc-here :
      (s : Slab) (rest : List Slab)
      → Slabs n (s ∷ rest)
      → s.in_use < n
      → (s' : Slab) × (take_object n s ≡ slab_done (s.next_free, s'))
        × Alloced n page (s ∷ rest) s.page s.next_free (s' ∷ rest)
  unfolding live_in has_page
  alloc-here s rest v h =
      let (s', e, low, was, same, ok', after) = take_object_lem n s v.0 h in
      (
        s',
        e,
        record {
          below = low;
          on_page = v.1;
          was_free = rw (==-self s.page) was;
          sound = (ok', rw same v.1, rw same v.2, v.3);
          live_after = λ q j. rw same (ground (arith, after j));
          elsewhere = λ q h e x. ground (arith, h, x);
          no_other_page = λ q h e. rw same h;
        },
      )

  -- the object comes from a later slab
  alloc-later :
      (s : Slab) (rest : List Slab)
      → Slabs n (s ∷ rest)
      → has_page page (s ∷ rest) ≡ false
      → (p i : ℕ) (rest' : List Slab) → Alloced n page rest p i rest'
      → Alloced n page (s ∷ rest) p i (s ∷ rest')
  unfolding live_in has_page
  alloc-later s rest v h p i rest' a =
      let away_page : s.page ≢ page = λ e. ground (arith, h, ==-self page) in
      let away : p ≢ s.page = a.elsewhere s.page v.2 away_page in
      record {
        below = a.below;
        on_page = a.on_page;
        was_free = ground (arith, a.was_free);
        sound = (v.0, v.1, a.no_other_page s.page v.2 away_page, a.sound);
        live_after = λ q j. ground (arith, a.live_after q j);
        elsewhere = λ q k e. a.elsewhere q (ground (arith, k)) e;
        no_other_page = λ q k e. ground (arith, a.no_other_page q);
      }

  pub alloc_loop-Alloced :
      (ss : List Slab)
      → Slabs n ss
      → has_page page ss ≡ false
      → (p i : ℕ) × (ss' : List Slab) × (alloc_loop n page word ss ≡ slab_done (p, i, ss'))
        × Alloced n page ss p i ss'
  unfolding alloc_loop has_page
  alloc_loop-Alloced [] v h = (page, 0, new_slab n page word ∷ [], refl, alloc-new)
  alloc_loop-Alloced (s ∷ rest) v h =
      let (p, i, rest', e, a) = alloc_loop-Alloced rest v.3 (ground (arith, h)) in
      elim (Bool-cases (ltb s.in_use n)) [
        | inl room ↦
            let (s', t, b) = alloc-here s rest v (ground (arith, room)) in
            (s.page, s.next_free, s' ∷ rest, rw (room, t) refl, b)
        | inr full ↦ (p, i, s ∷ rest', rw (full, e) refl, alloc-later s rest v h p i rest' a)
      ]
