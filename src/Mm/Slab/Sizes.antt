-- ===== src/Mm/Slab/Sizes.antt =====
-- `kmalloc` of kernel/mm/slab.c: which of the caches serves a request.
use mathlib.Core.Option.{some-injective}
use mathlib.Core.Path.{subst}
use native.Mathlib.Decide.{dec_le}
use native.Mathlib.Nat.{le_refl}
use monolith.Mm.Slab.{SlabCache, km_sizes, kmalloc, slab_done, slab_init, slab_panic}
use monolith.Mm.Slab.Caches.{Given, IsCache, slab_alloc-Given}
use monolith.Mm.Slab.Calls.{IsPage, has_page}
use monolith.Mm.Slab.Objects.{FitsPage}
use monolith.Prelude.{
  List, [], ap, arith, false, get_elem?, inl, inr, leb, refl, set, some, suc, true, zero, ℕ, ◌<◌,
  ◌∷◌, ◌≡◌, ◌≤◌, ◌⊎◌,
}
use monolith.Prelude.Words.{align_up}

-- blocks of at least `b`, and of less than `size`
abbrev pub AllFrom : ℕ → List SlabCache → Type 0
AllFrom b [] = Unit {0}
AllFrom b (c ∷ cs) = (b ≤ c.block_size) × AllFrom b cs

abbrev pub AllSmaller : ℕ → List SlabCache → Type 0
AllSmaller size [] = Unit {0}
AllSmaller size (c ∷ cs) = (c.block_size < size) × AllSmaller size cs

-- sound caches, in ascending order of their block sizes, none of which has the page
abbrev pub Caches : ℕ → List SlabCache → Type 0
Caches page [] = Unit {0}
Caches page (c ∷ cs) =
    IsCache c × (has_page page c.slabs ≡ false) × AllFrom c.block_size cs × Caches page cs

-- `kmalloc` served a request from the cache with index `k`
pub record ServedBy (page word size : ℕ) (cs : List SlabCache) (k a : ℕ) (c c' : SlabCache)
    : Type 0 where
  pub chosen : get_elem? cs k ≡ some c
  pub large : size ≤ c.block_size
  pub smallest :
      (j : ℕ) (d : SlabCache)
      → get_elem? cs j ≡ some d
      → size ≤ d.block_size
      → c.block_size ≤ d.block_size
  pub given : Given c a c'
  pub result : kmalloc page word size cs ≡ slab_done (a, set cs k c')

le→leb : (a b : ℕ) → a ≤ b → leb a b ≡ true
le→leb a b h = ground arith

lt→leb_false : (a b : ℕ) → b < a → leb a b ≡ false
lt→leb_false a b h = ground arith

AllFrom-get :
    (b : ℕ) (cs : List SlabCache) (j : ℕ) {d : SlabCache}
    → AllFrom b cs
    → get_elem? cs j ≡ some d
    → b ≤ d.block_size
AllFrom-get b [] j h e = cc
AllFrom-get b (c ∷ cs) zero h e = subst (λ x. b ≤ x.block_size) (some-injective _ _ e) h.0
AllFrom-get b (c ∷ cs) (suc j) h e = AllFrom-get b cs j h.1 e

module _ (page word size : ℕ) (aligned : IsPage page) where
  served-here :
      (c : SlabCache) (cs : List SlabCache)
      → Caches page (c ∷ cs)
      → size ≤ c.block_size
      → (a : ℕ) × (c' : SlabCache) × ServedBy page word size (c ∷ cs) 0 a c c'
  unfolding kmalloc
  served-here c cs v h =
      let (a, c', e, g) = slab_alloc-Given page word c v.0 aligned v.1 in
      (
        a,
        c',
        record {
          chosen = refl;
          large = h;
          smallest =
              λ j d get fit. AllFrom-get c.block_size (c ∷ cs) j (le_refl c.block_size, v.2) get;
          given = g;
          result = rw (kmalloc, le→leb size c.block_size h, e) refl;
        },
      )

  later_smallest :
      (c : SlabCache) (cs : List SlabCache)
      → c.block_size < size
      → (k : ℕ) (d : SlabCache)
      → ((j : ℕ) (e : SlabCache)
          → get_elem? cs j ≡ some e
          → size ≤ e.block_size
          → d.block_size ≤ e.block_size)
      → (j : ℕ) (e : SlabCache) → get_elem? (c ∷ cs) j ≡ some e
      → size ≤ e.block_size
      → d.block_size ≤ e.block_size
  later_smallest c cs h k d s zero e get fit =
      let same : c.block_size ≡ e.block_size =
        ap (λ (x : SlabCache). x.block_size) (some-injective _ _ get) in
      absurd (omega arith)
  later_smallest c cs h k d s (suc j) e get fit = s j e get fit

  served-later :
      (c : SlabCache) (cs : List SlabCache)
      → Caches page (c ∷ cs)
      → c.block_size < size
      → (k a : ℕ) (d d' : SlabCache) → ServedBy page word size cs k a d d'
      → ServedBy page word size (c ∷ cs) (suc k) a d d'
  unfolding kmalloc
  served-later c cs v h k a d d' r = record {
    chosen = r.chosen;
    large = r.large;
    smallest = later_smallest c cs h k d r.smallest;
    given = r.given;
    result = rw (kmalloc, lt→leb_false size c.block_size h, r.result) refl;
  }

  -- A request larger than the blocks of every cache panics. Any other is served from the cache with
  -- the smallest blocks that hold it, which gives an object as `slab_alloc` does; the other caches
  -- are as they were.
  pub kmalloc-ServedBy :
      (cs : List SlabCache)
      → Caches page cs
      → ((kmalloc page word size cs ≡ slab_panic) × AllSmaller size cs)
        ⊎ ((k a : ℕ) × (c c' : SlabCache) × ServedBy page word size cs k a c c')
  unfolding kmalloc
  kmalloc-ServedBy [] v = inl (refl, tt)
  kmalloc-ServedBy (c ∷ cs) v = elim (dec_le size c.block_size) [
    | yes h ↦ let (a, c', r) = served-here c cs v h in inr (0, a, c, c', r)
    | no h ↦ elim (kmalloc-ServedBy cs v.3) [
      | inl (e, low) ↦
          inl
            (rw (kmalloc, lt→leb_false size c.block_size (omega arith), e) refl, (omega arith, low))
      | inr (k, a, d, d', r) ↦ inr (suc k, a, d, d', served-later c cs v (omega arith) k a d d' r)
    ]
  ]

empty-IsCache :
    (b n : ℕ) → FitsPage b n → IsCache (record { slabs = []; block_size = b; obj_per_slab = n })
empty-IsCache b n f = record { fits = f; slabs_ok = tt }

-- `slab_init` sets the eight caches up.
pub slab_init-Caches : (page : ℕ) → Caches page (slab_init km_sizes)
unfolding slab_init has_page align_up
slab_init-Caches page = (
  empty-IsCache 8 508 (omega arith),
  refl,
  omega arith,
  (
    empty-IsCache 16 254 (omega arith),
    refl,
    omega arith,
    (
      empty-IsCache 32 127 (omega arith),
      refl,
      omega arith,
      (
        empty-IsCache 64 63 (omega arith),
        refl,
        omega arith,
        (
          empty-IsCache 128 31 (omega arith),
          refl,
          omega arith,
          (
            empty-IsCache 256 15 (omega arith),
            refl,
            omega arith,
            (
              empty-IsCache 512 7 (omega arith),
              refl,
              omega arith,
              (empty-IsCache 1024 3 (omega arith), refl, tt, tt),
            ),
          ),
        ),
      ),
    ),
  ),
)
