-- ===== src/Mm/Slab/Objects.antt =====
-- Where the objects of a slab lie in its page (kernel/mm/slab.c).
use native.Mathlib.Decide.{dec_lt}
use native.Mathlib.Nat.{mul-div_cancel_left}
use monolith.Mm.Slab.{header_size, memory_of, object_at}
use monolith.Mm.Slab.Calls.{IsPage}
use monolith.Prelude.{
  ap, arith, false, inl, inr, ℕ, ◌&&◌, ◌*◌, ◌+◌, ◌-◌, ◌/◌, ◌<◌, ◌==◌, ◌∙◌, ◌≡◌, ◌≤◌, ◌⊎◌,
}
use monolith.Prelude.Words.{align_down, align_down-page, align_up, page_size}

-- the blocks of a cache, behind the header, fit a page
pub record FitsPage (b n : ℕ) : Type 0 where
  pub positive : 0 < b
  pub header : header_size ≤ align_up header_size b
  pub room : align_up header_size b + b * n ≤ page_size
  pub two : 2 ≤ n

row_le : (b i n : ℕ) → i < n → b * i + b ≤ b * n
row_le b i n h = grind arith

module _ (b n p i : ℕ) (f : FitsPage b n) (aligned : IsPage p) (h : i < n) where
  -- An object lies behind the header, within the page.
  pub object_at_bounds : (p + header_size ≤ object_at b p i) × (object_at b p i + b ≤ p + page_size)
  unfolding object_at
  object_at_bounds = omega (arith, f.header, f.room, row_le b i n h)

  -- `slab_free` finds the page and the index of an object from its address.
  pub object_at-page : align_down (object_at b p i) page_size ≡ p
  object_at-page =
      let (lo, hi) = object_at_bounds in
      align_down-page (object_at b p i) (omega (arith, aligned, f.positive))
      ∙ omega (arith, aligned, f.positive)

  pub object_at-index : (object_at b p i - memory_of b p) / b ≡ i
  unfolding object_at
  object_at-index =
      let e : memory_of b p + b * i - memory_of b p ≡ b * i = omega arith in
      rw e (mul-div_cancel_left i f.positive)

before_apart : (b n p i j : ℕ) → i < j → object_at b p i + b ≤ object_at b p j
unfolding object_at
before_apart b n p i j h = omega (arith, row_le b i j h)

-- Different objects do not overlap.
pub object_at_apart :
    (b n p i q j : ℕ)
    → FitsPage b n
    → IsPage p
    → IsPage q
    → i < n
    → j < n
    → ((q == p) && (j == i)) ≡ false
    → (object_at b p i + b ≤ object_at b q j) ⊎ (object_at b q j + b ≤ object_at b p i)
object_at_apart b n p i q j f ap aq hi hj ne =
    let (lo, hi') = object_at_bounds b n p i f ap hi in
    let (lo', hi'') = object_at_bounds b n q j f aq hj in
    elim (dec_lt p q) [
      | yes l ↦ inl (omega arith)
      | no l ↦ elim (dec_lt q p) [
        | yes g ↦ inr (omega arith)
        | no g ↦
            let e : q ≡ p = omega arith in
            elim (dec_lt i j) [
              | yes k ↦ inl (rw e (before_apart b n p i j k))
              | no k ↦ inr (rw e (before_apart b n p j i (ground (arith, ne, e, k))))
            ]
      ]
    ]
