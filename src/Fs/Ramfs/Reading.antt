-- ===== src/Fs/Ramfs/Reading.antt =====
-- `ramfs_read` of kernel/fs/ramfs/ramfs.c on the bytes of a file.
use monolith.Fs.Ramfs.{RamFile, amount_in, bytes_read, overrun, ramfs_read, read_loop, skip_pages}
use monolith.Fs.Ramfs.Bytes.{bytes_from, bytes_from-next, page_bytes-append}
use monolith.Prelude.{
  Bool-cases, List, [], ap, arith, false, inl, inr, length, ltb, none, refl, some, suc, sym, ℕ, ◌%◌,
  ◌*◌, ◌+◌, ◌-◌, ◌<◌, ◌==◌, ◌∙◌, ◌∷◌, ◌≡◌, ◌≤◌, ◌⊎◌,
}
use monolith.Prelude.Words.{page_size}

-- how much one round transfers
pub record Amount (pos n amount : ℕ) : Type 0 where
  pub within : amount ≤ n
  pub in_page : pos % page_size + amount ≤ page_size
  pub all_or_full : (amount ≡ n) ⊎ (pos % page_size + amount ≡ page_size)

pub amount_in-Amount : (pos n : ℕ) → Amount pos n (amount_in pos n)
unfolding amount_in
amount_in-Amount pos n = elim (Bool-cases (ltb n (page_size - pos % page_size))) [
  | inl small ↦
      let lt : n < page_size - pos % page_size = ground (arith, small) in
      rw small
        (record { within = omega arith; in_page = omega (arith, lt); all_or_full = inl refl })
  | inr large ↦
      let ge : page_size - pos % page_size ≤ n = ground (arith, large) in
      rw large (record { within = ge; in_page = omega arith; all_or_full = inr (omega arith) })
]

pub next_offset :
    (pos amount : ℕ) → pos % page_size + amount ≡ page_size → (pos + amount) % page_size ≡ 0
next_offset pos amount full = omega (arith, full)

read_loop-zero : (rest : List (ℕ → ℕ)) (pos : ℕ) → read_loop rest pos 0 ≡ some []
unfolding read_loop
read_loop-zero [] pos = refl
read_loop-zero (page ∷ rest) pos = refl

-- the rounds behind a round
read_loop-later :
    (page : ℕ → ℕ) (rest : List (ℕ → ℕ)) (pos n amount : ℕ)
    → Amount pos n amount
    → pos % page_size + n ≤ page_size * suc (length rest)
    → ((pos + amount) % page_size + (n - amount) ≤ page_size * length rest
        → read_loop rest (pos + amount) (n - amount)
          ≡ some (bytes_from rest ((pos + amount) % page_size) (n - amount)))
    → read_loop rest (pos + amount) (n - amount)
      ≡ some (bytes_from (page ∷ rest) (pos % page_size + amount) (n - amount))
read_loop-later page rest pos n amount a h later = elim a.all_or_full [
  | inl all ↦
      let e : n - amount ≡ 0 = omega (arith, all) in rw e (read_loop-zero rest (pos + amount))
  | inr full ↦
      let start : (pos + amount) % page_size ≡ 0 = next_offset pos amount full in
      let e : pos % page_size + amount - page_size ≡ 0 = omega (arith, full) in
      let fits : (pos + amount) % page_size + (n - amount) ≤ page_size * length rest =
        omega (arith, start, full, h, a.within) in
      later fits
      ∙ ap (λ k. some (bytes_from rest k (n - amount))) (start ∙ sym e)
      ∙ ap some (
          sym (
            bytes_from-next page rest (pos % page_size + amount) (n - amount)
              (omega (arith, full))))
]

-- Up to the last page, the loop of `ramfs_read` copies the file's bytes in order.
pub read_loop-bytes :
    (rest : List (ℕ → ℕ)) (pos n : ℕ)
    → pos % page_size + n ≤ page_size * length rest
    → read_loop rest pos n ≡ some (bytes_from rest (pos % page_size) n)
unfolding read_loop
read_loop-bytes [] pos n h = let e : n ≡ 0 = omega (arith, h) in rw e refl
read_loop-bytes (page ∷ rest) pos n h =
    let amount = amount_in pos n in
    let a : Amount pos n amount = amount_in-Amount pos n in
    let whole : amount + (n - amount) ≡ n = omega (arith, a.within) in
    elim (Bool-cases (n == 0)) [
      | inl none_left ↦ let e : n ≡ 0 = ground (arith, none_left) in rw e refl
      | inr some_left ↦
          rw
            (
              some_left,
              read_loop-later page rest pos n amount a h
                  (read_loop-bytes rest (pos + amount) (n - amount)),
            )
            (ap some (
              page_bytes-append page rest (pos % page_size) amount (n - amount) a.in_page
              ∙ ap (bytes_from (page ∷ rest) (pos % page_size)) whole))
    ]

-- the walk to the page of the position, and the loop there
walk-bytes :
    (pages : List (ℕ → ℕ)) (rp pos n : ℕ)
    → rp % page_size ≡ pos % page_size
    → rp + n ≤ page_size * length pages
    → (rest : List (ℕ → ℕ)) × (skip_pages pages rp ≡ some rest)
      × (read_loop rest pos n ≡ some (bytes_from pages rp n))
unfolding skip_pages
walk-bytes [] rp pos n m h =
    let e : n ≡ 0 = omega (arith, h) in
    let z : rp ≡ 0 = omega (arith, h) in ([], rw z refl, rw e (read_loop-zero [] pos))
walk-bytes (page ∷ rest) rp pos n m h = elim (Bool-cases (ltb rp page_size)) [
  | inl here_it ↦
      let off : pos % page_size ≡ rp = ground (arith, here_it, m) in
      let fits : pos % page_size + n ≤ page_size * length (page ∷ rest) = omega (arith, off, h) in
      (
        page ∷ rest,
        rw here_it refl,
        read_loop-bytes (page ∷ rest) pos n fits
            ∙ ap (λ k. some (bytes_from (page ∷ rest) k n)) off,
      )
  | inr later ↦
      let past : page_size ≤ rp = ground (arith, later) in
      let (from, e, r) =
        walk-bytes rest (rp - page_size) pos n (omega (arith, m, past)) (omega (arith, h, past)) in
      (from, rw later e, r ∙ ap some (sym (bytes_from-next page rest rp n past)))
]

abbrev file_of : List (ℕ → ℕ) → ℕ → ℕ → RamFile
file_of pages size pos = record { pages = pages; size = size; pos = pos }

read_file :
    (pages : List (ℕ → ℕ)) (size pos n : ℕ)
    → pos + n ≤ page_size * length pages
    → ramfs_read (file_of pages size pos) n
      ≡ bytes_read (file_of pages size (pos + n)) (bytes_from pages pos n)
unfolding ramfs_read
read_file [] size pos n h =
    let e : n ≡ 0 = omega (arith, h) in let z : pos + 0 ≡ pos = omega arith in rw (e, z) refl
read_file (page ∷ rest) size pos n h =
    let (from, e, r) = walk-bytes (page ∷ rest) pos pos n refl h in rw (ramfs_read, e, r) refl

-- A read that ends within the file's pages: it gives the bytes from the position on, as many as asked
-- for, and moves the position behind them.
pub ramfs_read-bytes :
    (f : RamFile) (n : ℕ)
    → f.pos + n ≤ page_size * length f.pages
    → ramfs_read f n ≡ bytes_read (record f { pos = f.pos + n }) (bytes_from f.pages f.pos n)
ramfs_read-bytes f n h = read_file f.pages f.size f.pos n h

read_loop-overruns :
    (rest : List (ℕ → ℕ)) (pos n : ℕ)
    → 0 < n
    → page_size * length rest < pos % page_size + n
    → read_loop rest pos n ≡ none
unfolding read_loop
read_loop-overruns [] pos n some_left h =
    let e : (n == 0) ≡ false = ground (arith, some_left) in rw e refl
read_loop-overruns (page ∷ rest) pos n some_left h =
    let amount = amount_in pos n in
    let a : Amount pos n amount = amount_in-Amount pos n in
    let e : (n == 0) ≡ false = ground (arith, some_left) in
    let full : pos % page_size + amount ≡ page_size = elim a.all_or_full [
      | inl all ↦ omega (arith, all, h, a.in_page)
      | inr it ↦ it
    ] in
    let start : (pos + amount) % page_size ≡ 0 = next_offset pos amount full in
    rw
      (
        e,
        read_loop-overruns rest (pos + amount) (n - amount) (omega (arith, full, h))
            (omega (arith, full, start, h)),
      )
      refl

walk-overruns :
    (pages : List (ℕ → ℕ)) (rp pos n : ℕ)
    → rp % page_size ≡ pos % page_size
    → 0 < n
    → rp ≤ page_size * length pages
    → page_size * length pages < rp + n
    → (rest : List (ℕ → ℕ)) × (skip_pages pages rp ≡ some rest) × (read_loop rest pos n ≡ none)
unfolding skip_pages
walk-overruns [] rp pos n m left inside h =
    let z : rp ≡ 0 = omega (arith, inside) in
    let off : pos % page_size ≡ 0 = ground (arith, z, m) in
    ([], rw z refl, read_loop-overruns [] pos n left (omega (arith, off, left)))
walk-overruns (page ∷ rest) rp pos n m left inside h = elim (Bool-cases (ltb rp page_size)) [
  | inl near ↦
      let off : pos % page_size ≡ rp = ground (arith, near, m) in
      (
        page ∷ rest,
        rw near refl,
        read_loop-overruns (page ∷ rest) pos n left (omega (arith, off, h)),
      )
  | inr far ↦
      let past : page_size ≤ rp = ground (arith, far) in
      let (from, e, r) =
        walk-overruns rest (rp - page_size) pos n (omega (arith, m, past)) left
          (omega (arith, inside, past)) (omega (arith, h, past)) in
      (from, rw far e, r)
]

overrun_file :
    (pages : List (ℕ → ℕ)) (size pos n : ℕ)
    → 0 < length pages
    → pos ≤ page_size * length pages
    → page_size * length pages < pos + n
    → ramfs_read (file_of pages size pos) n ≡ overrun
unfolding ramfs_read
overrun_file [] size pos n some_page inside h = absurd (omega (arith, some_page))
overrun_file (page ∷ rest) size pos n some_page inside h =
    let (from, e, r) =
      walk-overruns (page ∷ rest) pos pos n refl (omega (arith, inside, h)) inside h in
    rw (ramfs_read, e, r) refl

-- A read of a file with pages that starts within them, or at their end, and asks for more bytes than
-- they have: it does not stop at the end of the file, and copies from the list's head.
pub ramfs_read-overruns :
    (f : RamFile) (n : ℕ)
    → 0 < length f.pages
    → f.pos ≤ page_size * length f.pages
    → page_size * length f.pages < f.pos + n
    → ramfs_read f n ≡ overrun
ramfs_read-overruns f n some_page inside h = overrun_file f.pages f.size f.pos n some_page inside h
