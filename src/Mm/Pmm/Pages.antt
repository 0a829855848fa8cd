-- ===== src/Mm/Pmm/Pages.antt =====
-- What the bitmap of kernel/mm/pmm.c says of each page, and how a write to a word changes it.
use monolith.Prelude.{
  ==_iff, Bool-cases, List, [], arith, bit_or, get_or, get_or-set_ne, get_or-set_self,
  if◌then◌else◌, inl, inr, length, set, suc, zero, ℕ, ◌%◌, ◌/◌, ◌<◌, ◌==◌, ◌^◌, ◌∙◌, ◌∷◌, ◌≡◌,
}
use monolith.Prelude.Bits.{bit, bit-set_bit}

-- 1 for a free page, 0 for a page in use
abbrev pub page_bit : List ℕ → ℕ → ℕ
page_bit bitmap n = bit (get_or bitmap (n / 64) 0) (n % 64)

-- every word has 64 bits
abbrev pub Words64 : List ℕ → Type 0
Words64 bitmap = (i : ℕ) → get_or bitmap i 0 < 2 ^ 64

pub set-Words64 :
    (bitmap : List ℕ) (i v : ℕ) → v < 2 ^ 64 → Words64 bitmap → Words64 (set bitmap i v)
set-Words64 [] i v hv h j = h j
set-Words64 (w ∷ ws) zero v hv h zero = hv
set-Words64 (w ∷ ws) zero v hv h (suc j) = h (suc j)
set-Words64 (w ∷ ws) (suc i) v hv h zero = h 0
set-Words64 (w ∷ ws) (suc i) v hv h (suc j) = set-Words64 ws i v hv (λ k. h (suc k)) j

pub page_bit-set :
    (bitmap : List ℕ) (i v n : ℕ)
    → i < length bitmap
    → page_bit (set bitmap i v) n ≡ (if n / 64 == i then bit v (n % 64) else page_bit bitmap n)
page_bit-set bitmap i v n h = elim (Bool-cases (n / 64 == i)) [
  | inl e ↦ rw (e, (==_iff (n / 64) i).0 e, get_or-set_self bitmap i v 0 h)
  | inr e ↦ rw (e, get_or-set_ne bitmap i (n / 64) v 0 (ground arith))
]

-- Setting one page's bit sets that page alone.
pub page_bit-set_page :
    (bitmap : List ℕ) (m n : ℕ)
    → m / 64 < length bitmap
    → page_bit (set bitmap (m / 64) (bit_or (get_or bitmap (m / 64) 0) (2 ^ (m % 64)))) n
      ≡ (if m == n then 1 else page_bit bitmap n)
page_bit-set_page bitmap m n h =
    page_bit-set bitmap (m / 64) _ n h ∙ elim (Bool-cases (n / 64 == m / 64)) [
      | inl e ↦
          rw
            (
              e,
              bit-set_bit (get_or bitmap (m / 64) 0) (m % 64) (n % 64),
              ← (==_iff (n / 64) (m / 64)).0 e,
            )
            (ground arith)
      | inr e ↦ rw e (ground arith)
    ]
