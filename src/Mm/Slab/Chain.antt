-- ===== src/Mm/Slab/Chain.antt =====
-- The free list inside a slab of kernel/mm/slab.c: the objects that it goes through, and what each
-- operation on one slab does to it.
use mathlib.Core.Path.{subst}
use monolith.Mm.Slab.{link_loop}
use monolith.Prelude.{
  ==_iff, Bool-cases, List, [], ap, arith, false, get_or, get_or-set_ne, if◌then◌else◌, inl, inr,
  leb, length, ltb, ne_of_==, refl, set, suc, sym, zero, ℕ, ◌&&◌, ◌+◌, ◌-◌, ◌<◌, ◌==◌, ◌∷◌, ◌≡◌,
  ◌≤◌,
}
use monolith.Prelude.Members.{contains}

-- the first `k` objects of the list that starts at `start`
unfoldable pub free_chain : List ℕ → ℕ → ℕ → List ℕ
free_chain links zero start = []
free_chain links (suc k) start = start ∷ free_chain links k (get_or links start 0)

-- every object below `n`, and none twice
abbrev pub ChainOf : ℕ → List ℕ → Type 0
ChainOf n [] = Unit {0}
ChainOf n (x ∷ xs) = (x < n) × (contains x xs ≡ false) × ChainOf n xs

-- A word of an object that is not on the list does not change the list.
pub free_chain-set :
    (links : List ℕ) (i v k start : ℕ)
    → contains i (free_chain links k start) ≡ false
    → free_chain (set links i v) k start ≡ free_chain links k start
unfolding free_chain contains
free_chain-set links i v zero start h = refl
free_chain-set links i v (suc k) start h = elim (Bool-cases (start == i)) [
  | inl e ↦ cc (h, e)
  | inr e ↦ rw (get_or-set_ne links i start v 0 (λ q. ne_of_== start i e (sym q))) (
      ap (λ xs. start ∷ xs) (free_chain-set links i v k (get_or links start 0) (ground (arith, h))))
]

-- The links of a new slab.
pub get_or-link_loop : (k i j : ℕ) → j < k → get_or (link_loop k i) j 0 ≡ i + j + 1
unfolding link_loop
get_or-link_loop zero i j h = absurd (omega arith)
get_or-link_loop (suc k) i zero h = omega arith
get_or-link_loop (suc k) i (suc j) h = omega (arith, get_or-link_loop k (i + 1) j)

pub length-link_loop : (k i : ℕ) → length (link_loop k i) ≡ k
unfolding link_loop
length-link_loop zero i = refl
length-link_loop (suc k) i = ap suc (length-link_loop k (i + 1))

-- the numbers from `i` on
unfoldable pub count_up : ℕ → ℕ → List ℕ
count_up zero i = []
count_up (suc k) i = i ∷ count_up k (suc i)

-- The list of a new slab goes through all its objects but the first, in order.
pub free_chain-fresh :
    (word n k i : ℕ)
    → suc i + k ≡ n
    → free_chain (word ∷ link_loop (n - 1) 1) k (suc i) ≡ count_up k (suc i)
unfolding free_chain count_up
free_chain-fresh word n zero i h = refl
free_chain-fresh word n (suc k) i h =
    let e : get_or (link_loop (n - 1) 1) i 0 ≡ suc (suc i) =
      omega (arith, get_or-link_loop (n - 1) 1 i (omega arith)) in
    rw e (ap (λ xs. suc i ∷ xs) (free_chain-fresh word n k (suc i) (omega arith)))

contains-count_up : (k i j : ℕ) → j < i → contains j (count_up k i) ≡ false
unfolding contains count_up
contains-count_up zero i j h = refl
contains-count_up (suc k) i j h = ground (arith, contains-count_up k (suc i) j)

pub contains-count_up_iff : (k i j : ℕ) → contains j (count_up k i) ≡ (leb i j && ltb j (i + k))
unfolding contains count_up
contains-count_up_iff zero i j = ground arith
contains-count_up_iff (suc k) i j = ground (arith, contains-count_up_iff k (suc i) j)

pub count_up-ChainOf : (n k i : ℕ) → i + k ≤ n → ChainOf n (count_up k i)
unfolding count_up
count_up-ChainOf n zero i h = tt
count_up-ChainOf n (suc k) i h = (
  omega arith,
  contains-count_up k (suc i) i (omega arith),
  count_up-ChainOf n k (suc i) (omega arith),
)

pub length-free_chain : (links : List ℕ) (k start : ℕ) → length (free_chain links k start) ≡ k
unfolding free_chain
length-free_chain links zero start = refl
length-free_chain links (suc k) start = ap suc (length-free_chain links k (get_or links start 0))

-- the list without the number `n`
drop_top : ℕ → List ℕ → List ℕ
drop_top n [] = []
drop_top n (x ∷ xs) = if x == n then xs else x ∷ drop_top n xs

contains-drop_top :
    (n i : ℕ) (xs : List ℕ) → contains i xs ≡ false → contains i (drop_top n xs) ≡ false
unfolding contains drop_top
contains-drop_top n i [] h = refl
contains-drop_top n i (x ∷ xs) h = ground (arith, contains-drop_top n i xs)

without-ChainOf : (n : ℕ) (xs : List ℕ) → ChainOf (suc n) xs → contains n xs ≡ false → ChainOf n xs
unfolding contains
without-ChainOf n [] c h = tt
without-ChainOf n (x ∷ xs) c h =
    (ground (arith, c, h), c.1, without-ChainOf n xs c.2 (ground (arith, h)))

drop_top-ChainOf : (n : ℕ) (xs : List ℕ) → ChainOf (suc n) xs → ChainOf n (drop_top n xs)
unfolding drop_top
drop_top-ChainOf n [] c = tt
drop_top-ChainOf n (x ∷ xs) c = elim (Bool-cases (x == n)) [
  | inl e ↦
      rw e (without-ChainOf n xs c.2 (subst (λ k. contains k xs ≡ false) ((==_iff x n).0 e) c.1))
  | inr e ↦ rw e (ground (arith, c), contains-drop_top n x xs c.1, drop_top-ChainOf n xs c.2)
]

length-drop_top : (n : ℕ) (xs : List ℕ) → length xs ≤ suc (length (drop_top n xs))
unfolding drop_top
length-drop_top n [] = omega arith
length-drop_top n (x ∷ xs) = ground (arith, length-drop_top n xs)

-- No more than `n` different numbers are below `n`.
pub length-ChainOf : (n : ℕ) (xs : List ℕ) → ChainOf n xs → length xs ≤ n
length-ChainOf zero [] c = omega arith
length-ChainOf zero (x ∷ xs) c = absurd (omega (arith, c.0))
length-ChainOf (suc n) xs c =
    omega (arith, length-drop_top n xs, length-ChainOf n (drop_top n xs) (drop_top-ChainOf n xs c))
