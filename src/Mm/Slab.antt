-- ===== src/Mm/Slab.antt =====
-- kernel/mm/slab.c: caches of equal objects, one page to a slab, and kmalloc over eight of them. A
-- section under a cache's lock is one step. A slab is its header and the 32-bit word at the start of
-- each of its objects, which is a link of the free list while the object is free and belongs to the
-- owner while it is not. `pmm_allocate` is the page allocator of Mm/Pmm: the address of the page
-- that it gives, in the direct map, and the first word of that page are arguments.
pub mod Chain
pub mod Live
pub mod Calls
pub mod Objects
pub mod Freeing
pub mod Caches
pub mod Sizes
mod Tests
use mathlib.Core.Option
use monolith.Prelude.{
  List, [], get_or, if◌then◌else◌, leb, ltb, set, suc, zero, ℕ, ◌&&◌, ◌*◌, ◌+◌, ◌-◌, ◌/◌, ◌==◌, ◌∷◌,
}
use monolith.Prelude.Words.{align_down, align_up, page_size}

-- `struct slab` at the start of its page
pub record Slab : Type 0 where
  pub page : ℕ
  pub links : List ℕ
  pub in_use : ℕ
  pub next_free : ℕ

pub record SlabCache : Type 0 where
  pub slabs : List Slab
  pub block_size : ℕ
  pub obj_per_slab : ℕ

-- What a call comes to: a panic ends it, and an address that is not the start of an object of some
-- slab is outside the model, since the C then reads and writes whatever is there.
pub data Slabbed {ℓ} (A : Type ℓ) : Type ℓ where
  slab_done : A → Slabbed A
  slab_panic slab_outside : Slabbed A

-- sizeof(struct slab)
abbrev pub header_size : ℕ
header_size = 32

-- `slab_init`, for one cache
unfoldable pub objects_for : ℕ → ℕ
unfolding align_up
objects_for block_size = (page_size - align_up header_size block_size) / block_size

-- `km_caches` after `slab_init`
unfoldable pub slab_init : List ℕ → List SlabCache
unfolding objects_for
slab_init [] = []
slab_init (b ∷ bs) =
    record { slabs = []; block_size = b; obj_per_slab = objects_for b } ∷ slab_init bs

abbrev pub km_sizes : List ℕ
km_sizes = 8 ∷ 16 ∷ 32 ∷ 64 ∷ 128 ∷ 256 ∷ 512 ∷ 1024 ∷ []

-- the memory of a slab's objects, and the address of one
unfoldable pub memory_of : ℕ → ℕ → ℕ
unfolding align_up
memory_of block_size page = page + align_up header_size block_size

unfoldable pub object_at : ℕ → ℕ → ℕ → ℕ
unfolding memory_of
object_at block_size page i = memory_of block_size page + block_size * i

-- the loop that links the objects `i` to `i + k - 1` of a new slab
unfoldable pub link_loop : ℕ → ℕ → List ℕ
link_loop zero i = []
link_loop (suc k) i = (i + 1) ∷ link_loop k (i + 1)

-- a new slab, with its first object given away
unfoldable pub new_slab : ℕ → ℕ → ℕ → Slab
unfolding link_loop
new_slab n page word = record {
  page = page;
  links = word ∷ link_loop (n - 1) 1;
  in_use = 1;
  next_free = 1;
}

-- the first object of a slab's free list is taken
unfoldable pub take_object : ℕ → Slab → Slabbed (ℕ × Slab)
take_object n s =
    if leb n s.next_free
    then slab_panic
    else slab_done
        (s.next_free, record s { next_free = get_or s.links s.next_free 0; in_use = s.in_use + 1 })

-- The walk of `slab_alloc` over a cache's slabs: the page and the index of the object, and the slabs
-- afterwards.
unfoldable pub alloc_loop : ℕ → ℕ → ℕ → List Slab → Slabbed (ℕ × ℕ × List Slab)
unfolding take_object new_slab
alloc_loop n page word [] = slab_done (page, 0, new_slab n page word ∷ [])
alloc_loop n page word (s ∷ rest) =
    let later : Slabbed (ℕ × ℕ × List Slab) = elim (alloc_loop n page word rest) [
      | slab_done (p, i, rest') ↦ slab_done (p, i, s ∷ rest')
      | slab_panic ↦ slab_panic
      | slab_outside ↦ slab_outside
    ] in
    let from_this : Slabbed (ℕ × ℕ × List Slab) = elim (take_object n s) [
      | slab_done (i, s') ↦ slab_done (s.page, i, s' ∷ rest)
      | slab_panic ↦ slab_panic
      | slab_outside ↦ slab_outside
    ] in
    if ltb s.in_use n then from_this else later

unfoldable pub slab_alloc : ℕ → ℕ → SlabCache → Slabbed (ℕ × SlabCache)
unfolding alloc_loop object_at
slab_alloc page word c = elim (alloc_loop c.obj_per_slab page word c.slabs) [
  | slab_done (p, i, ss) ↦ slab_done (object_at c.block_size p i, record c { slabs = ss })
  | slab_panic ↦ slab_panic
  | slab_outside ↦ slab_outside
]

-- the body of `slab_free`, on the slab of the address
unfoldable pub free_object : ℕ → ℕ → ℕ → Slab → Slabbed Slab
unfolding memory_of object_at
free_object block_size n addr s =
    let i = (addr - memory_of block_size s.page) / block_size in
    if s.in_use == 0
    then slab_panic
    else if ltb addr (s.page + header_size)
    then slab_panic
    else if (object_at block_size s.page i == addr) && ltb i n
    then slab_done
        (record s { links = set s.links i s.next_free; in_use = s.in_use - 1; next_free = i })
    else slab_outside

-- the slab on the page `addr & ~0xFFF`
unfoldable pub free_loop : ℕ → ℕ → ℕ → List Slab → Slabbed (List Slab)
unfolding free_object
free_loop block_size n addr [] = slab_outside
free_loop block_size n addr (s ∷ rest) =
    let later : Slabbed (List Slab) = elim (free_loop block_size n addr rest) [
      | slab_done rest' ↦ slab_done (s ∷ rest')
      | slab_panic ↦ slab_panic
      | slab_outside ↦ slab_outside
    ] in
    let from_this : Slabbed (List Slab) = elim (free_object block_size n addr s) [
      | slab_done s' ↦ slab_done (s' ∷ rest)
      | slab_panic ↦ slab_panic
      | slab_outside ↦ slab_outside
    ] in
    if s.page == align_down addr page_size then from_this else later

unfoldable pub slab_free : ℕ → SlabCache → Slabbed SlabCache
unfolding free_loop
slab_free addr c = elim (free_loop c.block_size c.obj_per_slab addr c.slabs) [
  | slab_done ss ↦ slab_done (record c { slabs = ss })
  | slab_panic ↦ slab_panic
  | slab_outside ↦ slab_outside
]

-- `kmalloc`: the first cache whose blocks are large enough
unfoldable pub kmalloc : ℕ → ℕ → ℕ → List SlabCache → Slabbed (ℕ × List SlabCache)
unfolding slab_alloc
kmalloc page word size [] = slab_panic
kmalloc page word size (c ∷ cs) =
    let later : Slabbed (ℕ × List SlabCache) = elim (kmalloc page word size cs) [
      | slab_done (a, cs') ↦ slab_done (a, c ∷ cs')
      | slab_panic ↦ slab_panic
      | slab_outside ↦ slab_outside
    ] in
    let from_this : Slabbed (ℕ × List SlabCache) = elim (slab_alloc page word c) [
      | slab_done (a, c') ↦ slab_done (a, c' ∷ cs)
      | slab_panic ↦ slab_panic
      | slab_outside ↦ slab_outside
    ] in
    if leb size c.block_size then from_this else later
