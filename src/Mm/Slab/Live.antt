-- ===== src/Mm/Slab/Live.antt =====
-- Which objects of a slab are given away (kernel/mm/slab.c): all those that its free list does not go
-- through. `slab_alloc` and `slab_free` on one slab are the insertion and the removal of one element.
use mathlib.Core.Path.{subst}
use monolith.Mm.Slab.{Slab, new_slab, slab_done, take_object}
use monolith.Mm.Slab.Chain.{
  ChainOf, contains-count_up_iff, count_up, count_up-ChainOf, free_chain, free_chain-fresh,
  free_chain-set, length-ChainOf, length-free_chain, length-link_loop,
}
use monolith.Prelude.{
  ==-self, Bool, List, ap, arith, false, get_or, get_or-set_self, if◌then◌else◌, length, length-set,
  ltb, not, refl, set, suc, sym, true, ℕ, ◌&&◌, ◌+◌, ◌-◌, ◌<◌, ◌==◌, ◌∙◌, ◌∷◌, ◌≡◌, ◌≤◌,
}
use monolith.Prelude.Members.{contains}

-- the free list of a slab of `n` objects
unfoldable pub free_list : ℕ → Slab → List ℕ
unfolding free_chain
free_list n s = free_chain s.links (n - s.in_use) s.next_free

unfoldable pub is_live : ℕ → Slab → ℕ → Bool
unfolding free_list contains
is_live n s i = ltb i n && not (contains i (free_list n s))

pub record IsSlab (n : ℕ) (s : Slab) : Type 0 where
  pub sized : length s.links ≡ n
  pub counted : s.in_use ≤ n
  pub chained : ChainOf n (free_list n s)

-- A new slab is sound, and its first object and no other is live.
new_slab-free_list :
    (n page word : ℕ) → 2 ≤ n → free_list n (new_slab n page word) ≡ count_up (n - 1) 1
unfolding new_slab free_list
new_slab-free_list n page word h = free_chain-fresh word n (n - 1) 0 (omega arith)

pub new_slab-IsSlab : (n page word : ℕ) → 2 ≤ n → IsSlab n (new_slab n page word)
unfolding new_slab
new_slab-IsSlab n page word h = record {
  sized = omega (arith, length-link_loop (n - 1) 1);
  counted = omega arith;
  chained =
      subst (ChainOf n) (sym (new_slab-free_list n page word h))
        (count_up-ChainOf n (n - 1) 1 (omega arith));
}

pub new_slab-is_live : (n page word j : ℕ) → 2 ≤ n → is_live n (new_slab n page word) j ≡ (j == 0)
unfolding is_live
new_slab-is_live n page word j h =
    rw (new_slab-free_list n page word h) (ground (arith, contains-count_up_iff (n - 1) 1 j))

module _ (n : ℕ) (s : Slab) (v : IsSlab n s) where
  -- what is left of the list when its first object is taken
  taken_list : List ℕ
  taken_list = free_chain s.links (n - (s.in_use + 1)) (get_or s.links s.next_free 0)

  free_list-cons : s.in_use < n → free_list n s ≡ s.next_free ∷ taken_list
  unfolding free_list taken_list free_chain
  free_list-cons h = let e : n - s.in_use ≡ suc (n - (s.in_use + 1)) = omega arith in rw e refl

  abbrev taken : Slab
  taken = record s { next_free = get_or s.links s.next_free 0; in_use = s.in_use + 1 }

  taken-free_list : free_list n taken ≡ taken_list
  unfolding free_list taken_list
  taken-free_list = refl

  -- With room in the slab there is no panic; the object taken was free, and it alone becomes live.
  pub take_object_lem :
      s.in_use < n
      → (s' : Slab) × (take_object n s ≡ slab_done (s.next_free, s'))
        × (s.next_free < n)
        × (is_live n s s.next_free ≡ false)
        × (s'.page ≡ s.page)
        × IsSlab n s'
        × ((j : ℕ) → is_live n s' j ≡ (if j == s.next_free then true else is_live n s j))
  unfolding take_object is_live contains
  take_object_lem h =
      let c : ChainOf n (s.next_free ∷ taken_list) =
        subst (ChainOf n) (free_list-cons h) v.chained in
      (
        taken,
        ground (arith, c.0),
        c.0,
        rw (free_list-cons h) (ground (arith, ==-self s.next_free)),
        refl,
        record {
          sized = v.sized;
          counted = omega (arith, h);
          chained = subst (ChainOf n) (sym taken-free_list) c.2;
        },
        λ j. rw (free_list-cons h, taken-free_list) (ground (arith, c)),
      )

  written-free_list :
      (i word : ℕ)
      → is_live n s i ≡ true
      → free_list n (record s { links = set s.links i word }) ≡ free_list n s
  unfolding is_live free_list
  written-free_list i word h =
      free_chain-set s.links i word (n - s.in_use) s.next_free (ground (arith, h))

  -- The owner of a live object may write any word to it.
  pub owner_write :
      (i word : ℕ)
      → is_live n s i ≡ true
      → IsSlab n (record s { links = set s.links i word })
        × ((j : ℕ) → is_live n (record s { links = set s.links i word }) j ≡ is_live n s j)
  unfolding is_live
  owner_write i word h = (
    record {
      sized = length-set s.links i word ∙ v.sized;
      counted = v.counted;
      chained = subst (ChainOf n) (sym (written-free_list i word h)) v.chained;
    },
    λ j. rw (written-free_list i word h) refl,
  )

  pub live-below : (i : ℕ) → is_live n s i ≡ true → (i < n) × (contains i (free_list n s) ≡ false)
  unfolding is_live
  live-below i h = ground (arith, h)

  -- a slab with a live object is not empty
  pub live-in_use : (i : ℕ) → is_live n s i ≡ true → 0 < s.in_use
  unfolding free_list
  live-in_use i h =
      let (low, out) = live-below i h in
      omega (
        arith,
        length-ChainOf n (i ∷ free_list n s) (low, out, v.chained),
        length-free_chain s.links (n - s.in_use) s.next_free,
        v.counted,
      )

  abbrev pub freed_slab : ℕ → Slab
  freed_slab i = record s {
    links = set s.links i s.next_free;
    in_use = s.in_use - 1;
    next_free = i;
  }

  freed-free_list : (i : ℕ) → is_live n s i ≡ true → free_list n (freed_slab i) ≡ i ∷ free_list n s
  unfolding free_list free_chain
  freed-free_list i h =
      let (low, out) = live-below i h in
      let e : n - (s.in_use - 1) ≡ suc (n - s.in_use) = omega (arith, live-in_use i h, v.counted) in
      rw (e, get_or-set_self s.links i s.next_free 0 (omega (arith, v.sized, low)))
        (ap (λ xs. i ∷ xs) (free_chain-set s.links i s.next_free (n - s.in_use) s.next_free out))

  -- A live object is taken back, and it alone stops being live.
  pub freed_lem :
      (i : ℕ)
      → is_live n s i ≡ true
      → IsSlab n (freed_slab i)
        × ((j : ℕ) → is_live n (freed_slab i) j ≡ (if j == i then false else is_live n s j))
  unfolding is_live contains
  freed_lem i h = (
    record {
      sized = length-set s.links i s.next_free ∙ v.sized;
      counted = omega (arith, v.counted);
      chained =
          subst (ChainOf n) (sym (freed-free_list i h))
            ((live-below i h).0, (live-below i h).1, v.chained);
    },
    λ j. rw (freed-free_list i h) (ground arith),
  )
