-- ===== src/Mm/Pmm/Mark.antt =====
-- `pmm_mark_range_free` of kernel/mm/pmm.c: the loop ends, and whichever of its two strides it
-- takes, it frees exactly the pages of the range.
use monolith.Mm.Pmm.{all_ones, mark_loop}
use monolith.Mm.Pmm.Pages.{Words64, page_bit, page_bit-set, page_bit-set_page, set-Words64}
use monolith.Prelude.{
  Bool, Bool-cases, List, Option, arith, bit_or, get_or, if◌then◌else◌, inl, inr, leb, length,
  length-set, ltb, refl, set, some, suc, zero, ℕ, ◌%◌, ◌&&◌, ◌*◌, ◌+◌, ◌-◌, ◌/◌, ◌<◌, ◌==◌, ◌^◌,
  ◌∙◌, ◌≡◌, ◌≤◌,
}
use monolith.Prelude.Bits.{bit-ones, or-lt, pow-lt}
use monolith.Prelude.Words.{add64, page_size, u64_mod}

-- is n one of the `count` pages from page `first` on
abbrev pub in_range : ℕ → ℕ → ℕ → Bool
in_range first count n = leb first n && ltb n (first + count)

-- `b` is `bitmap` with the `count` pages from page `first` on set.
pub record Marked (bitmap : List ℕ) (first count : ℕ) (b : List ℕ) : Type 0 where
  pub same_length : length b ≡ length bitmap
  pub words : Words64 bitmap → Words64 b
  pub pages : (n : ℕ) → page_bit b n ≡ (if in_range first count n then 1 else page_bit bitmap n)

Marked-nil : (bitmap : List ℕ) (first : ℕ) → Marked bitmap first 0 bitmap
Marked-nil bitmap first = record { same_length = refl; words = λ h. h; pages = λ n. ground arith }

-- First the pages from `first` to `first + k`, then the rest.
Marked-append :
    (bitmap mid b : List ℕ) (first k count : ℕ)
    → k ≤ count
    → Marked bitmap first k mid
    → Marked mid (first + k) (count - k) b
    → Marked bitmap first count b
Marked-append bitmap mid b first k count le m r = record {
  same_length = r.same_length ∙ m.same_length;
  words = λ h. r.words (m.words h);
  pages = λ n. ground (arith, r.pages n, m.pages n);
}

Marked-page :
    (bitmap : List ℕ) (m : ℕ)
    → m / 64 < length bitmap
    → Marked bitmap m 1 (set bitmap (m / 64) (bit_or (get_or bitmap (m / 64) 0) (2 ^ (m % 64))))
Marked-page bitmap m h = record {
  same_length = length-set bitmap _ _;
  words = λ v.
      set-Words64 bitmap (m / 64) _ (or-lt 64 _ _ (v (m / 64)) (pow-lt (m % 64) 64 (omega arith)))
        v;
  pages = λ n. ground (arith, page_bit-set_page bitmap m n h);
}

Marked-word :
    (bitmap : List ℕ) (m : ℕ)
    → m % 64 ≡ 0
    → m / 64 < length bitmap
    → Marked bitmap m 64 (set bitmap (m / 64) all_ones)
Marked-word bitmap m e h = record {
  same_length = length-set bitmap _ _;
  words = λ v. set-Words64 bitmap (m / 64) all_ones (omega arith) v;
  pages = λ n.
      ground (arith, page_bit-set bitmap (m / 64) all_ones n h, bit-ones 64 (n % 64) (omega arith));
}

abbrev pub Result : List ℕ → ℕ → ℕ → Option (List ℕ) → Type 0
Result bitmap rbegin rlen o =
    (b : List ℕ) × (o ≡ some b) × Marked bitmap (rbegin / page_size) (rlen / page_size) b

-- one stride of k pages, and the rest of the loop
stride :
    (bitmap mid : List ℕ) (k rlen rbegin : ℕ) (o : Option (List ℕ))
    → k * page_size ≤ rlen
    → Marked bitmap (rbegin / page_size) k mid
    → Result mid (rbegin + k * page_size) (rlen - k * page_size) o
    → Result bitmap rbegin rlen o
stride bitmap mid k rlen rbegin o le m (b, e, r) =
    let first : (rbegin + k * page_size) / page_size ≡ rbegin / page_size + k = omega arith in
    let rest : (rlen - k * page_size) / page_size ≡ rlen / page_size - k = omega arith in
    (
      b,
      e,
      Marked-append bitmap mid b (rbegin / page_size) k (rlen / page_size) (omega arith) m
          (rw (first, rest) at r),
    )

pub mark_loop-Result :
    (fuel : ℕ) (bitmap : List ℕ) (rlen rbegin : ℕ)
    → rlen / page_size < fuel
    → rbegin + rlen ≤ length bitmap * 64 * page_size
    → rbegin + rlen < u64_mod
    → Result bitmap rbegin rlen (mark_loop fuel bitmap rlen rbegin)
unfolding mark_loop add64
mark_loop-Result zero bitmap rlen rbegin f h w = absurd (omega arith)
mark_loop-Result (suc fuel) bitmap rlen rbegin f h w = elim (Bool-cases (leb page_size rlen)) [
  | inr small ↦
      let z : rlen / page_size ≡ 0 = ground arith in
      rw (small, z) (bitmap, refl, Marked-nil bitmap (rbegin / page_size))
  | inl big ↦ elim (Bool-cases (leb (64 * page_size) rlen && (rbegin / page_size % 64 == 0))) [
    | inl wide ↦
        let e : (rbegin + 64 * page_size) % u64_mod ≡ rbegin + 64 * page_size = ground arith in
        let m = Marked-word bitmap (rbegin / page_size) (ground arith) (ground arith) in
        rw (big, wide, e)
          (stride bitmap _ 64 rlen rbegin _ (ground arith) m (
            mark_loop-Result fuel _ (rlen - 64 * page_size) (rbegin + 64 * page_size) (ground arith)
              (ground (arith, m.same_length)) (ground arith)))
    | inr narrow ↦
        let e : (rbegin + page_size) % u64_mod ≡ rbegin + page_size = ground arith in
        let m = Marked-page bitmap (rbegin / page_size) (ground arith) in
        rw (big, narrow, e)
          (stride bitmap _ 1 rlen rbegin _ (ground arith) m (
            mark_loop-Result fuel _ (rlen - page_size) (rbegin + page_size) (ground arith)
              (ground (arith, m.same_length)) (ground arith)))
  ]
]
