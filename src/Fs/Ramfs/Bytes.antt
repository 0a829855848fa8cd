-- ===== src/Fs/Ramfs/Bytes.antt =====
-- The bytes of a file of kernel/fs/ramfs/ramfs.c as one sequence.
use monolith.Fs.Ramfs.{page_bytes}
use monolith.Prelude.{
  List, [], ap, arith, false, if◌then◌else◌, ltb, refl, suc, true, zero, ℕ, ◌++◌, ◌+◌, ◌-◌, ◌∙◌,
  ◌∷◌, ◌≡◌, ◌≤◌,
}
use monolith.Prelude.Words.{page_size}

-- the byte at the offset `i` of the pages
abbrev pub contents : List (ℕ → ℕ) → ℕ → ℕ
contents [] i = 0
contents (page ∷ rest) i = if ltb i page_size then page i else contents rest (i - page_size)

-- the bytes from the offset `i` on
abbrev pub bytes_from : List (ℕ → ℕ) → ℕ → ℕ → List ℕ
bytes_from pages i zero = []
bytes_from pages i (suc n) = contents pages i ∷ bytes_from pages (i + 1) n

-- from the second page on
pub bytes_from-next :
    (page : ℕ → ℕ) (rest : List (ℕ → ℕ)) (i n : ℕ)
    → page_size ≤ i
    → bytes_from (page ∷ rest) i n ≡ bytes_from rest (i - page_size) n
bytes_from-next page rest i zero h = refl
bytes_from-next page rest i (suc n) h =
    let past : ltb i page_size ≡ false = ground arith in
    let e : (i + 1) - page_size ≡ (i - page_size) + 1 = omega arith in
    rw past (
      ap (λ bs. contents rest (i - page_size) ∷ bs)
        (bytes_from-next page rest (i + 1) n (omega arith) ∙ ap (λ k. bytes_from rest k n) e))

-- the bytes of the first page and those behind them
pub page_bytes-append :
    (page : ℕ → ℕ) (rest : List (ℕ → ℕ)) (i amount n : ℕ)
    → i + amount ≤ page_size
    → page_bytes page i amount ++ bytes_from (page ∷ rest) (i + amount) n
      ≡ bytes_from (page ∷ rest) i (amount + n)
unfolding page_bytes
page_bytes-append page rest i zero n h =
    let e : i + 0 ≡ i = omega arith in let e2 : 0 + n ≡ n = omega arith in rw (e, e2) refl
page_bytes-append page rest i (suc amount) n h =
    let near : ltb i page_size ≡ true = ground arith in
    let e : i + suc amount ≡ (i + 1) + amount = omega arith in
    let e2 : suc amount + n ≡ suc (amount + n) = omega arith in
    rw (e, e2, near)
      (ap (λ bs. page i ∷ bs) (page_bytes-append page rest (i + 1) amount n (omega arith)))
