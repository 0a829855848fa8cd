-- ===== src/Mm/Pmm/Counts.antt =====
-- The counters of kernel/mm/pmm.c: physmem_available is the number of free pages, through every
-- call.
use mathlib.Core.Path.{subst}
use native.Mathlib.Decide.{ℕ_discrete}
use monolith.Mm.Pmm.{
  Pmm, allocate, free, free_pages_count, mark_loop, mark_range_free, used_pages_count,
}
use monolith.Mm.Pmm.Allocate.{
  Allocated, IsValid, allocate-Outcome, allocate-some, free-IsValid, length-free, page_bit-free,
}
use monolith.Mm.Pmm.Mark.{Marked, in_range, mark_loop-Result}
use monolith.Mm.Pmm.Pages.{page_bit}
use monolith.Prelude.{
  ==-ne, ==-self, List, Option, Option-cases, arith, get_or, if◌then◌else◌, inl, inr, length, min,
  none, refl, some, suc, sym, true, zero, ℕ, ◌%◌, ◌*◌, ◌+◌, ◌-◌, ◌/◌, ◌<◌, ◌∙◌, ◌≡◌, ◌≢◌, ◌≤◌,
}
use monolith.Prelude.Bits.{bit-le}
use monolith.Prelude.Words.{add64, page_size, sub64, u64_mod}

sum_pages : (ℕ → ℕ) → ℕ → ℕ
sum_pages f zero = 0
sum_pages f (suc n) = sum_pages f n + f n

sum_pages-le : (f : ℕ → ℕ) (n : ℕ) → ((m : ℕ) → f m ≤ 1) → sum_pages f n ≤ n
unfolding sum_pages
sum_pages-le f zero h = omega arith
sum_pages-le f (suc n) h = omega (arith, sum_pages-le f n h, h n)

sum_pages-congr :
    (f g : ℕ → ℕ) (n : ℕ) → ((m : ℕ) → m < n → f m ≡ g m) → sum_pages f n ≡ sum_pages g n
unfolding sum_pages
sum_pages-congr f g zero h = refl
sum_pages-congr f g (suc n) h =
    omega (arith, sum_pages-congr f g n (λ m lt. h m (omega arith)), h n (omega arith))

sum_pages-flip :
    (f g : ℕ → ℕ) (j n : ℕ)
    → j < n
    → ((m : ℕ) → m ≢ j → f m ≡ g m)
    → sum_pages f n + g j ≡ sum_pages g n + f j
unfolding sum_pages
sum_pages-flip f g j zero lt h = absurd (omega arith)
sum_pages-flip f g j (suc n) lt h = elim (ℕ_discrete j n) [
  | yes e ↦ rw e (omega (arith, sum_pages-congr f g n (λ m k. h m (λ q. omega arith))))
  | no ne ↦ omega (arith, sum_pages-flip f g j n (omega arith) h, h n (λ q. ne (sym q)))
]

sum_pages-range :
    (f g : ℕ → ℕ) (first count n : ℕ)
    → ((m : ℕ) → f m ≡ (if in_range first count m then 1 else g m))
    → ((m : ℕ) → in_range first count m ≡ true → g m ≡ 0)
    → sum_pages f n ≡ sum_pages g n + (min n (first + count) - min n first)
unfolding sum_pages
sum_pages-range f g first count zero h z = omega arith
sum_pages-range f g first count (suc n) h z =
    ground (arith, sum_pages-range f g first count n h z, h n, z n)

-- the number of pages that the bitmap marks free
unfoldable pub free_count : List ℕ → ℕ
unfolding sum_pages
free_count bitmap = sum_pages (page_bit bitmap) (length bitmap * 64)

-- A valid state whose counter is right, and whose two counters together stay within the bitmap.
pub record IsCounted (p : Pmm) : Type 0 where
  pub valid : IsValid p
  pub counted : p.available ≡ free_count p.bitmap
  pub total : p.available + p.used ≤ length p.bitmap * 64

free_count-le : (p : Pmm) → free_count p.bitmap ≤ length p.bitmap * 64
unfolding free_count
free_count-le p =
    sum_pages-le (page_bit p.bitmap) (length p.bitmap * 64)
      (λ m. bit-le (get_or p.bitmap (m / 64) 0) (m % 64))

-- The free pages after one page's bit has changed.
free_count-flip :
    (b c : List ℕ) (j : ℕ)
    → j < length b * 64
    → length c ≡ length b
    → ((m : ℕ) → m ≢ j → page_bit c m ≡ page_bit b m)
    → free_count c + page_bit b j ≡ free_count b + page_bit c j
unfolding free_count
free_count-flip b c j lt same h =
    rw same (sum_pages-flip (page_bit c) (page_bit b) j (length b * 64) lt h)

abbrev pub Counted : Pmm → Option (Pmm × ℕ) → Type 0
Counted p none = free_pages_count p ≡ 0
Counted p (some (q, a)) =
    IsCounted q
    × (free_pages_count q + 1 ≡ free_pages_count p)
    × (used_pages_count q ≡ used_pages_count p + 1)

zero_count : (b : List ℕ) → ((m : ℕ) → page_bit b m ≡ 0) → (n : ℕ) → sum_pages (page_bit b) n ≡ 0
unfolding sum_pages
zero_count b h zero = refl
zero_count b h (suc n) = omega (arith, zero_count b h n, h n)

allocate-counters :
    (p q : Pmm) (a : ℕ)
    → allocate p ≡ some (q, a)
    → (q.available ≡ sub64 p.available 1) × (q.used ≡ add64 p.used 1)
unfolding allocate
allocate-counters p q a e = ground arith

-- `pmm_allocate` on a counted state: it panics only at the count 0, and otherwise moves one page
-- from the free count to the used count and keeps both counts right.
pub allocate-Counted : (p : Pmm) → IsCounted p → Counted p (allocate p)
unfolding free_pages_count used_pages_count free_count sub64 add64
allocate-Counted p c = elim (Option-cases (allocate p)) [
  | inl e ↦ rw e (empty (rw e at (allocate-Outcome p c.valid)))
  | inr ((q, a), e) ↦ rw e (taken q a e (allocate-some p q a c.valid e))
]
  where
    empty : ((m : ℕ) → page_bit p.bitmap m ≡ 0) → free_pages_count p ≡ 0
    empty z = omega (arith, c.counted, zero_count p.bitmap z (length p.bitmap * 64))

    taken : (q : Pmm) (a : ℕ) → allocate p ≡ some (q, a) → Allocated p q a → Counted p (some (q, a))
    taken q a e got =
        let (avail, used) = allocate-counters p q a e in
        let j : ℕ = a / page_size in
        let step : free_count q.bitmap + 1 ≡ free_count p.bitmap + 0 =
          subst (λ x. free_count q.bitmap + x ≡ free_count p.bitmap + 0) got.was_free
            (subst (λ x. free_count q.bitmap + page_bit p.bitmap j ≡ free_count p.bitmap + x)
              (got.taken j ∙ rw (==-self j))
              (free_count-flip p.bitmap q.bitmap j got.inside got.same_length
                (λ m ne. got.taken m ∙ rw (==-ne j m (λ x. ne (sym x)))))) in
        let bound = free_count-le p in
        (
          record {
            valid = got.valid;
            counted = omega (arith, c.counted, c.valid.small);
            total = omega (arith, c.counted, c.total, c.valid.small, got.same_length);
          },
          omega (arith, c.counted, c.valid.small),
          omega (arith, c.total, c.valid.small),
        )

free-counters :
    (p : Pmm) (addr : ℕ)
    → ((free p addr).available ≡ add64 p.available 1) × ((free p addr).used ≡ sub64 p.used 1)
unfolding free
free-counters p addr = (refl, refl)

-- `pmm_free` of a page in use, inside the bitmap, moves it back from the used count to the free
-- count and keeps both counts right.
pub free-IsCounted :
    (p : Pmm) (addr : ℕ)
    → IsCounted p
    → addr / page_size < length p.bitmap * 64
    → page_bit p.bitmap (addr / page_size) ≡ 0
    → 0 < p.used
    → IsCounted (free p addr)
      × (free_pages_count (free p addr) ≡ free_pages_count p + 1)
      × (used_pages_count (free p addr) + 1 ≡ used_pages_count p)
unfolding free_pages_count used_pages_count sub64 add64
free-IsCounted p addr c lt inuse pos =
    let j : ℕ = addr / page_size in
    let at = λ (m : ℕ). page_bit-free p addr m (omega arith) in
    let step : free_count (free p addr).bitmap + 0 ≡ free_count p.bitmap + 1 =
      subst (λ x. free_count (free p addr).bitmap + x ≡ free_count p.bitmap + 1) inuse
        (subst
          (λ x. free_count (free p addr).bitmap + page_bit p.bitmap j ≡ free_count p.bitmap + x)
          (at j ∙ rw (==-self j))
          (free_count-flip p.bitmap (free p addr).bitmap j lt (length-free p addr)
            (λ m ne. at m ∙ rw (==-ne j m (λ x. ne (sym x)))))) in
    let (avail, used) = free-counters p addr in
    (
      record {
        valid = free-IsValid p addr c.valid;
        counted = omega (arith, c.counted, c.total, c.valid.small);
        total = omega (arith, c.total, c.valid.small, length-free p addr);
      },
      omega (arith, c.total, c.valid.small),
      omega (arith, c.total, c.valid.small),
    )

mark_range_free-some :
    (p : Pmm) (begin end : ℕ) (b : List ℕ)
    → begin ≤ end
    → end < u64_mod
    → mark_loop (suc ((end - begin) / page_size)) p.bitmap (end - begin) begin ≡ some b
    → mark_range_free p begin end
      ≡ some
          (record p { bitmap = b; available = (p.available + (end - begin) / page_size) % u64_mod })
unfolding mark_range_free sub64 add64
mark_range_free-some p begin end b le wrap done =
    let e : (end + u64_mod - begin) % u64_mod ≡ end - begin = omega arith in
    rw (mark_range_free, sub64, e, done, sub64, add64, e)

-- `pmm_mark_range_free` of a range of pages inside the bitmap that are not free yet: it ends, frees
-- exactly the pages of the range, and adds their number to the free count.
pub mark_range_free-IsCounted :
    (p : Pmm) (begin end : ℕ)
    → IsCounted p
    → begin ≤ end
    → end ≤ length p.bitmap * 64 * page_size
    → end < u64_mod
    → ((n : ℕ)
        → in_range (begin / page_size) ((end - begin) / page_size) n ≡ true
        → page_bit p.bitmap n ≡ 0)
    → p.available + p.used + (end - begin) / page_size ≤ length p.bitmap * 64
    → (q : Pmm) × (mark_range_free p begin end ≡ some q)
      × Marked p.bitmap (begin / page_size) ((end - begin) / page_size) q.bitmap
      × IsCounted q
unfolding free_count
mark_range_free-IsCounted p begin end c le inside wrap unset total =
    let rlen : ℕ = end - begin in
    let (b, done, m) =
      mark_loop-Result (suc (rlen / page_size)) p.bitmap rlen begin (omega arith) (omega arith)
        (omega arith) in
    let counted =
      sum_pages-range (page_bit b) (page_bit p.bitmap) (begin / page_size) (rlen / page_size)
        (length p.bitmap * 64) m.pages unset in
    (
      record p { bitmap = b; available = (p.available + rlen / page_size) % u64_mod },
      mark_range_free-some p begin end b le wrap done,
      m,
      record {
        valid = record { words = m.words c.valid.words; small = rw m.same_length c.valid.small };
        counted = rw m.same_length (omega (arith, c.counted, c.valid.small));
        total = omega (arith, c.valid.small, m.same_length);
      },
    )
