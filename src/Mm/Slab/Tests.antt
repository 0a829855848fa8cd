-- ===== src/Mm/Slab/Tests.antt =====
-- Runs of kernel/mm/slab.c on small caches, and its theorems at them.
use monolith.Mm.Slab.{
  SlabCache, km_sizes, kmalloc, object_at, slab_alloc, slab_done, slab_free, slab_init, slab_panic,
}
use monolith.Mm.Slab.Caches.{Given, IsCache, lives, slab_alloc-Given, slab_free-Taken}
use monolith.Mm.Slab.Calls.{has_page, live_in}
use monolith.Mm.Slab.Chain.{free_chain}
use monolith.Mm.Slab.Live.{free_list, is_live}
use monolith.Mm.Slab.Sizes.{AllSmaller, ServedBy, kmalloc-ServedBy, slab_init-Caches}
use monolith.Prelude.{[], arith, false, if◌then◌else◌, refl, ℕ, ◌&&◌, ◌==◌, ◌∷◌, ◌≡◌, ◌⊎◌}
use monolith.Prelude.Members.{contains}
use monolith.Prelude.Words.{align_down, align_up}

-- a cache of three blocks of 1024 bytes, whose one slab has given its first object away
abbrev used_cache : SlabCache
used_cache = record {
  slabs = record { page = 0x8000; links = 77 ∷ 2 ∷ 3 ∷ []; in_use = 1; next_free = 1 } ∷ [];
  block_size = 1024;
  obj_per_slab = 3;
}

alloc_runs :
    slab_alloc 0x9000 0 used_cache
    ≡ slab_done (
      0x8800,
      record used_cache {
        slabs = record { page = 0x8000; links = 77 ∷ 2 ∷ 3 ∷ []; in_use = 2; next_free = 2 } ∷ [];
      },
    )
unfolding slab_alloc align_up
alloc_runs = refl

free_runs :
    slab_free 0x8400 used_cache
    ≡ slab_done (record used_cache {
      slabs = record { page = 0x8000; links = 1 ∷ 2 ∷ 3 ∷ []; in_use = 0; next_free = 0 } ∷ [];
    })
unfolding slab_free align_up align_down
free_runs = refl

-- a pointer into the header, and a second cache's page
free_header_runs : slab_free 0x8010 used_cache ≡ slab_panic
unfolding slab_free align_up align_down
free_header_runs = refl

used_cache-IsCache : IsCache used_cache
unfolding has_page align_up free_list free_chain contains
used_cache-IsCache = record {
  fits = omega arith;
  slabs_ok = (
    record {
      sized = refl;
      counted = omega arith;
      chained = (omega arith, refl, (omega arith, refl, tt));
    },
    (refl, omega arith),
    refl,
    tt,
  );
}

slab_alloc-Given_example :
    (a : ℕ) × (c' : SlabCache) × (slab_alloc 0x9000 0 used_cache ≡ slab_done (a, c'))
    × Given used_cache a c'
unfolding has_page
slab_alloc-Given_example =
    slab_alloc-Given 0x9000 0 used_cache used_cache-IsCache (refl, omega arith) refl

slab_free-Taken_example :
    (c' : SlabCache) × (slab_free (object_at 1024 0x8000 0) used_cache ≡ slab_done c')
    × IsCache c'
    × ((q j : ℕ)
        → lives c' q j ≡ (if (q == 0x8000) && (j == 0) then false else lives used_cache q j))
unfolding live_in is_live free_list free_chain contains
slab_free-Taken_example = slab_free-Taken used_cache 0x8000 0 used_cache-IsCache refl

kmalloc-ServedBy_runs :
    ((kmalloc 0x9000 0 20 (slab_init km_sizes) ≡ slab_panic) × AllSmaller 20 (slab_init km_sizes))
    ⊎ ((k a : ℕ) × (c c' : SlabCache) × ServedBy 0x9000 0 20 (slab_init km_sizes) k a c c')
kmalloc-ServedBy_runs =
    kmalloc-ServedBy 0x9000 0 20 (refl, omega arith) (slab_init km_sizes) (slab_init-Caches 0x9000)
