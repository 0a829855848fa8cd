-- ===== src/Mm/Pmm/Allocate.antt =====
-- `pmm_allocate` and `pmm_free` of kernel/mm/pmm.c against the set of free pages.
use mathlib.Core.Path.{subst}
use native.Mathlib.Decide.{dec_lt}
use monolith.Mm.Pmm.{Pmm, allocate, find_word, free}
use monolith.Mm.Pmm.Pages.{Words64, page_bit, page_bit-set, page_bit-set_page, set-Words64}
use monolith.Prelude.{
  ==_iff, Bool-cases, List, Option, [], arith, bit_and, bit_or, get_or, if◌then◌else◌, inl, inr,
  length, length-set, none, refl, set, some, suc, sym, zero, ℕ, ◌%◌, ◌*◌, ◌+◌, ◌/◌, ◌<◌, ◌==◌, ◌^◌,
  ◌∙◌, ◌∷◌, ◌≡◌, ◌≢◌, ◌≤◌,
}
use monolith.Prelude.Bits.{and-le, bit-clear_bit, bit-zero, bit_not, or-lt, pow-lt}
use monolith.Prelude.Ctz.{ctz, ctz-lowest, ctz-lt}
use monolith.Prelude.Words.{add64, page_size, sub64, u64_mod}

pub record IsValid (p : Pmm) : Type 0 where
  pub words : Words64 p.bitmap
  pub small : length p.bitmap * 64 * page_size ≤ u64_mod

-- what the scan finds, `d` words behind its start
record Found (ws : List ℕ) (i j w : ℕ) : Type 0 where
  d : ℕ
  here : j ≡ i + d
  inside : d < length ws
  holds : get_or ws d 0 ≡ w
  nonzero : w ≢ 0
  before : (k : ℕ) → k < d → get_or ws k 0 ≡ 0

abbrev Scanned : List ℕ → ℕ → Option (ℕ × ℕ) → Type 0
Scanned ws i none = (k : ℕ) → get_or ws k 0 ≡ 0
Scanned ws i (some (j, w)) = Found ws i j w

Scanned-cons :
    (ws : List ℕ) (i : ℕ) (o : Option (ℕ × ℕ)) → Scanned ws (i + 1) o → Scanned (0 ∷ ws) i o
Scanned-cons ws i none s = elim [ zero ↦ refl | suc k ↦ s k ]
Scanned-cons ws i (some (j, w)) s = record {
  d = suc s.d;
  here = omega (arith, s.here);
  inside = omega (arith, s.inside);
  holds = s.holds;
  nonzero = s.nonzero;
  before = elim [ zero ↦ λ _. refl | suc k ↦ λ h. s.before k (omega arith) ];
}

find_word-Scanned : (ws : List ℕ) (i : ℕ) → Scanned ws i (find_word ws i)
unfolding find_word
find_word-Scanned [] i = λ k. refl
find_word-Scanned (w ∷ ws) i = elim (Bool-cases (w == 0)) [
  | inl e ↦
      let z : w ≡ 0 = (==_iff w 0).0 e in
      rw z (Scanned-cons ws i (find_word ws (i + 1)) (find_word-Scanned ws (i + 1)))
  | inr e ↦ rw e (record {
    d = 0;
    here = omega arith;
    inside = omega arith;
    holds = refl;
    nonzero = ground arith;
    before = λ k h. absurd (omega arith);
  })
]

-- `a` is the lowest free page of `p`; in `q`, which is valid, it is in use, and every other page is
-- as in `p`.
pub record Allocated (p q : Pmm) (a : ℕ) : Type 0 where
  pub valid : IsValid q
  pub same_length : length q.bitmap ≡ length p.bitmap
  pub aligned : a ≡ a / page_size * page_size
  pub inside : a / page_size < length p.bitmap * 64
  pub was_free : page_bit p.bitmap (a / page_size) ≡ 1
  pub lowest : (m : ℕ) → m < a / page_size → page_bit p.bitmap m ≡ 0
  pub taken :
      (m : ℕ) → page_bit q.bitmap m ≡ (if a / page_size == m then 0 else page_bit p.bitmap m)

abbrev pub Outcome : Pmm → Option (Pmm × ℕ) → Type 0
Outcome p none = (m : ℕ) → page_bit p.bitmap m ≡ 0
Outcome p (some (q, a)) = Allocated p q a

Allocated-page :
    (p q : Pmm) (n a : ℕ)
    → IsValid q
    → length q.bitmap ≡ length p.bitmap
    → a ≡ n * page_size
    → n < length p.bitmap * 64
    → page_bit p.bitmap n ≡ 1
    → ((m : ℕ) → m < n → page_bit p.bitmap m ≡ 0)
    → ((m : ℕ) → page_bit q.bitmap m ≡ (if n == m then 0 else page_bit p.bitmap m))
    → Allocated p q a
Allocated-page p q n a valid same_length e inside was_free lowest taken =
    let page : a / page_size ≡ n = omega arith in
    record {
      valid = valid;
      same_length = same_length;
      aligned = omega arith;
      inside = omega arith;
      was_free = rw page was_free;
      lowest = rw page lowest;
      taken = rw page taken;
    }

module _ (p : Pmm) (v : IsValid p) (i w : ℕ) (f : Found p.bitmap 0 i w) where
  word_lt : w < 2 ^ 64
  word_lt = rw (← f.holds) (v.words f.d)

  index_lt : ctz 64 w < 64
  index_lt = ctz-lt 64 w word_lt f.nonzero

  i-eq : i ≡ f.d
  i-eq = omega (arith, f.here)

  no_wrap : (i * 64 + ctz 64 w) * page_size % u64_mod ≡ (i * 64 + ctz 64 w) * page_size
  no_wrap = omega (arith, index_lt, i-eq, f.inside, v.small)

  below : (m : ℕ) → m < i * 64 + ctz 64 w → page_bit p.bitmap m ≡ 0
  below m h = elim (dec_lt (m / 64) f.d) [
    | yes q ↦ rw (f.before (m / 64) q) (bit-zero (m % 64))
    | no q ↦
        let e : m / 64 ≡ f.d = omega (arith, index_lt, i-eq) in
        rw (e, f.holds)
          ((ctz-lowest 64 w word_lt f.nonzero).1 (m % 64) (omega (arith, index_lt, i-eq)))
  ]

  cleared :
      (m : ℕ)
      → page_bit (set p.bitmap i (bit_and w (bit_not 64 (2 ^ ctz 64 w)))) m
        ≡ (if i * 64 + ctz 64 w == m then 0 else page_bit p.bitmap m)
  cleared m =
      let inside : i < length p.bitmap = omega (arith, i-eq, f.inside) in
      page_bit-set p.bitmap i _ m inside ∙ elim (Bool-cases (m / 64 == i)) [
        | inl e ↦
            let q : m / 64 ≡ f.d = omega (arith, (==_iff (m / 64) i).0 e, i-eq) in
            rw
              (e, bit-clear_bit 64 w (ctz 64 w) (m % 64) word_lt index_lt (omega arith), q, f.holds)
              (ground (arith, index_lt, i-eq))
        | inr e ↦ rw e (ground (arith, index_lt))
      ]

  found-Allocated :
      Allocated p
        (record p {
          bitmap = set p.bitmap i (bit_and w (bit_not 64 (2 ^ ctz 64 w)));
          available = sub64 p.available 1;
          used = add64 p.used 1;
        })
        ((i * 64 + ctz 64 w) * page_size % u64_mod)
  found-Allocated =
      Allocated-page p _ (i * 64 + ctz 64 w) _ valid (length-set p.bitmap i word) no_wrap
        (omega (arith, index_lt, i-eq, f.inside)) was_set below cleared
    where
      word : ℕ
      word = bit_and w (bit_not 64 (2 ^ ctz 64 w))

      valid : IsValid (record p {
        bitmap = set p.bitmap i word;
        available = sub64 p.available 1;
        used = add64 p.used 1;
      })
      valid = record {
        words =
            set-Words64 p.bitmap i word
              (omega (arith, word_lt, and-le 64 w (bit_not 64 (2 ^ ctz 64 w)) word_lt)) v.words;
        small = rw (length-set p.bitmap i word) v.small;
      }

      was_set : page_bit p.bitmap (i * 64 + ctz 64 w) ≡ 1
      was_set =
          let hi : (i * 64 + ctz 64 w) / 64 ≡ f.d = omega (arith, index_lt, i-eq) in
          let lo : (i * 64 + ctz 64 w) % 64 ≡ ctz 64 w = omega (arith, index_lt) in
          rw (hi, lo, f.holds) (ctz-lowest 64 w word_lt f.nonzero).0

-- `pmm_allocate` on a valid state panics exactly when no page is free (`Outcome` at `none`), and
-- otherwise returns the address of the lowest free page, marks that page as in use, leaves every
-- other page as it was, and keeps the state valid.
pub allocate-Outcome : (p : Pmm) → IsValid p → Outcome p (allocate p)
unfolding allocate
allocate-Outcome p v = go (find_word p.bitmap 0) (find_word-Scanned p.bitmap 0)
  where
    go :
        (o : Option (ℕ × ℕ))
        → Scanned p.bitmap 0 o
        → Outcome p (elim o [
          | none ↦ none
          | some (i, w) ↦ some (
            record p {
              bitmap = set p.bitmap i (bit_and w (bit_not 64 (2 ^ ctz 64 w)));
              available = sub64 p.available 1;
              used = add64 p.used 1;
            },
            (i * 64 + ctz 64 w) * page_size % u64_mod,
          )
        ])
    go none s = λ m. rw (s (m / 64)) (bit-zero (m % 64))
    go (some (i, w)) s = found-Allocated p v i w s

-- `pmm_free` of a page inside the bitmap makes that page free and leaves every other page as it
-- was.
pub page_bit-free :
    (p : Pmm) (addr m : ℕ)
    → addr / page_size / 64 < length p.bitmap
    → page_bit (free p addr).bitmap m ≡ (if addr / page_size == m then 1 else page_bit p.bitmap m)
unfolding free
page_bit-free p addr m h = page_bit-set_page p.bitmap (addr / page_size) m h

pub length-free : (p : Pmm) (addr : ℕ) → length (free p addr).bitmap ≡ length p.bitmap
unfolding free
length-free p addr = length-set p.bitmap _ _

pub free-IsValid : (p : Pmm) (addr : ℕ) → IsValid p → IsValid (free p addr)
unfolding free
free-IsValid p addr v = record {
  words =
      set-Words64 p.bitmap _ _
        (or-lt 64 _ _ (v.words (addr / page_size / 64))
          (pow-lt (addr / page_size % 64) 64 (omega arith)))
        v.words;
  small =
      rw
        (length-set p.bitmap (addr / page_size / 64)
          (bit_or (get_or p.bitmap (addr / page_size / 64) 0) (2 ^ (addr / page_size % 64))))
        v.small;
}

pub allocate-some : (p q : Pmm) (a : ℕ) → IsValid p → allocate p ≡ some (q, a) → Allocated p q a
allocate-some p q a v e = rw e at (allocate-Outcome p v)

-- Freeing the page that `pmm_allocate` has just returned makes the same pages free as before the
-- allocation.
pub free-allocate :
    (p q : Pmm) (a m : ℕ)
    → IsValid p
    → allocate p ≡ some (q, a)
    → page_bit (free q a).bitmap m ≡ page_bit p.bitmap m
free-allocate p q a m v e =
    let got = allocate-some p q a v e in
    page_bit-free q a m (omega (arith, got.inside, got.same_length))
    ∙ elim (Bool-cases (a / page_size == m)) [
      | inl s ↦ rw s (subst (λ x. 1 ≡ page_bit p.bitmap x) ((==_iff _ m).0 s) (sym got.was_free))
      | inr s ↦ rw s (got.taken m ∙ rw s)
    ]
