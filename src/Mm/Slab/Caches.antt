-- ===== src/Mm/Slab/Caches.antt =====
-- The caches of kernel/mm/slab.c, as sets of live objects that do not overlap.
use monolith.Mm.Pmm.{free}
use monolith.Mm.Slab.{SlabCache, header_size, object_at, slab_alloc, slab_done, slab_free}
use monolith.Mm.Slab.Calls.{IsPage, Slabs, alloc_loop-Alloced, has_page, live_in}
use monolith.Mm.Slab.Freeing.{free_loop-Freed, live_in_bounds}
use monolith.Mm.Slab.Objects.{FitsPage, object_at_apart, object_at_bounds}
use monolith.Prelude.{
  Bool, Bool-cases, arith, false, if◌then◌else◌, inl, inr, refl, true, ℕ, ◌&&◌, ◌+◌, ◌==◌, ◌≡◌, ◌≤◌,
  ◌⊎◌,
}
use monolith.Prelude.Words.{page_size}

-- a sound cache
pub record IsCache (c : SlabCache) : Type 0 where
  pub fits : FitsPage c.block_size c.obj_per_slab
  pub slabs_ok : Slabs c.obj_per_slab c.slabs

-- is the object `i` on the page `p` given away
abbrev pub lives : SlabCache → ℕ → ℕ → Bool
lives c p i = live_in c.obj_per_slab c.slabs p i

-- the object at `a` overlaps no live object of the cache
abbrev pub Apart : SlabCache → ℕ → Type 0
Apart c a =
    (q j : ℕ)
    → lives c q j ≡ true
    → (a + c.block_size ≤ object_at c.block_size q j)
      ⊎ (object_at c.block_size q j + c.block_size ≤ a)

-- what a call of `slab_alloc` that returns `a` leaves
pub record Given (c : SlabCache) (a : ℕ) (c' : SlabCache) : Type 0 where
  pub object_page : ℕ
  pub object_index : ℕ
  pub its_address : a ≡ object_at c.block_size object_page object_index
  pub free_before : lives c object_page object_index ≡ false
  pub apart : Apart c a
  pub in_page : (object_page + header_size ≤ a) × (a + c.block_size ≤ object_page + page_size)
  pub live_now :
      (q j : ℕ)
      → lives c' q j ≡ (if (q == object_page) && (j == object_index) then true else lives c q j)
  pub sound_now : IsCache c'
  pub same_size : c'.block_size ≡ c.block_size

was_not_live :
    (c : SlabCache) (p i q j : ℕ)
    → lives c p i ≡ false
    → lives c q j ≡ true
    → ((q == p) && (j == i)) ≡ false
was_not_live c p i q j free live = elim (Bool-cases ((q == p) && (j == i))) [
  | inl e ↦
      let eq : q ≡ p = ground (arith, e) in
      let ej : j ≡ i = ground (arith, e) in cc (free, live, eq, ej)
  | inr e ↦ e
]

-- On a sound cache, and with a fresh page from the page allocator, `slab_alloc` does not panic. The
-- object that it returns was free, overlaps no live object nor the header of its page, and it alone
-- becomes live; the cache stays sound.
pub slab_alloc-Given :
    (page word : ℕ) (c : SlabCache)
    → IsCache c
    → IsPage page
    → has_page page c.slabs ≡ false
    → (a : ℕ) × (c' : SlabCache) × (slab_alloc page word c ≡ slab_done (a, c')) × Given c a c'
unfolding slab_alloc
slab_alloc-Given page word c v aligned fresh =
    let b : ℕ = c.block_size in
    let n : ℕ = c.obj_per_slab in
    let (p, i, ss', e, r) =
      alloc_loop-Alloced n page word v.fits.two aligned c.slabs v.slabs_ok fresh in
    (
      object_at b p i,
      record c { slabs = ss' },
      rw (slab_alloc, e) refl,
      record {
        object_page = p;
        object_index = i;
        its_address = refl;
        free_before = r.was_free;
        apart = λ q j l.
            let (aq, jq) = live_in_bounds n c.slabs q j v.slabs_ok l in
            object_at_apart b n p i q j v.fits r.on_page aq r.below jq
              (was_not_live c p i q j r.was_free l);
        in_page = object_at_bounds b n p i v.fits r.on_page r.below;
        live_now = r.live_after;
        sound_now = record { fits = v.fits; slabs_ok = r.sound };
        same_size = refl;
      },
    )

-- On a sound cache, `slab_free` of the address of a live object does not panic. That object alone
-- stops being live, and the cache stays sound.
pub slab_free-Taken :
    (c : SlabCache) (p i : ℕ)
    → IsCache c
    → lives c p i ≡ true
    → (c' : SlabCache) × (slab_free (object_at c.block_size p i) c ≡ slab_done c')
      × IsCache c'
      × ((q j : ℕ) → lives c' q j ≡ (if (q == p) && (j == i) then false else lives c q j))
unfolding slab_free
slab_free-Taken c p i v h =
    let (ss', e, r) = free_loop-Freed c.block_size c.obj_per_slab v.fits c.slabs p i v.slabs_ok h in
    (
      record c { slabs = ss' },
      rw (slab_free, e) refl,
      record { fits = v.fits; slabs_ok = r.sound },
      r.live_after,
    )
