-- ===== src/Fs/Ramfs/RoundTrip.antt =====
-- `ramfs_write` and `ramfs_read` of kernel/fs/ramfs/ramfs.c, one after the other.
use mathlib.Core.Path.{subst}
use native.Mathlib.Decide.{dec_lt}
use monolith.Fs.Ramfs.{RamFile, bytes_read, grow_loop, ramfs_read, ramfs_write, write_at}
use monolith.Fs.Ramfs.Bytes.{bytes_from, contents}
use monolith.Fs.Ramfs.Growing.{Grown, grow_loop-Grown}
use monolith.Fs.Ramfs.Reading.{ramfs_read-bytes}
use monolith.Fs.Ramfs.Writing.{Written, write_loop-Written}
use monolith.Prelude.{
  Bool-cases, List, [], ap, arith, false, inl, inr, length, ltb, refl, some, suc, sym, true, zero,
  ℕ, ◌%◌, ◌*◌, ◌+◌, ◌-◌, ◌/◌, ◌<◌, ◌==◌, ◌∙◌, ◌∷◌, ◌≡◌, ◌≤◌,
}
use monolith.Prelude.Words.{page_size}

-- a page in front of the others, which is not written
skip-Written :
    (page : ℕ → ℕ) (rest ps : List (ℕ → ℕ)) (off : ℕ) (buffer : ℕ → ℕ) (n : ℕ)
    → page_size ≤ off
    → Written rest ps (off - page_size) buffer 0 n
    → Written (page ∷ rest) (page ∷ ps) off buffer 0 n
skip-Written page rest ps off buffer n past w = record {
  same_length = omega (arith, w.same_length);
  put = λ i h.
      let far : ltb (off + i) page_size ≡ false = ground (arith, past) in
      let e : off + i - page_size ≡ off - page_size + i = omega (arith, past) in
      rw far (ap (contents ps) e ∙ w.put i h);
  kept_before = λ i h. elim (dec_lt i page_size) [
    | yes near ↦ let e : ltb i page_size ≡ true = ground (arith, near) in rw e refl
    | no far ↦
        let e : ltb i page_size ≡ false = ground (arith, far) in
        rw e (w.kept_before (i - page_size) (omega (arith, h, far)))
  ];
  cleared = λ i p h same.
      let far : ltb i page_size ≡ false = ground (arith, past, h) in
      rw far
        (w.cleared (i - page_size) p (omega (arith, h, past)) (omega (arith, same, h, past, p)));
  kept_behind = λ i h.
      let far : ltb i page_size ≡ false = ground (arith, past, h) in
      rw far (w.kept_behind (i - page_size) (omega (arith, h, past)));
}

write_at-Written :
    (pages : List (ℕ → ℕ)) (wp pos : ℕ) (buffer : ℕ → ℕ) (n : ℕ)
    → wp % page_size ≡ pos % page_size
    → wp + n ≤ page_size * length pages
    → (ps : List (ℕ → ℕ)) × (write_at pages wp pos buffer n ≡ some ps)
      × Written pages ps wp buffer 0 n
unfolding write_at
write_at-Written [] wp pos buffer n m h =
    let z : wp ≡ 0 = omega (arith, h) in
    let off : pos % page_size ≡ 0 = ground (arith, z, m) in
    let (ps, e, w) = write_loop-Written [] pos buffer 0 n (omega (arith, off, h)) in
    let near : ltb wp page_size ≡ true = ground (arith, z) in
    (ps, rw near e, subst (λ k. Written [] ps k buffer 0 n) (off ∙ sym z) w)
write_at-Written (page ∷ rest) wp pos buffer n m h = elim (Bool-cases (ltb wp page_size)) [
  | inl near ↦
      let off : pos % page_size ≡ wp = ground (arith, near, m) in
      let (ps, e, w) = write_loop-Written (page ∷ rest) pos buffer 0 n (omega (arith, off, h)) in
      (ps, rw near e, subst (λ k. Written (page ∷ rest) ps k buffer 0 n) off w)
  | inr far ↦
      let past : page_size ≤ wp = ground (arith, far) in
      let (ps, e, w) =
        write_at-Written rest (wp - page_size) pos buffer n (omega (arith, m, past))
          (omega (arith, h, past)) in
      (page ∷ ps, rw (far, e) refl, skip-Written page rest ps wp buffer n past w)
]

-- the first `n` bytes of the buffer, from `i` on
abbrev pub buffer_bytes : (ℕ → ℕ) → ℕ → ℕ → List ℕ
buffer_bytes buffer i zero = []
buffer_bytes buffer i (suc n) = buffer i ∷ buffer_bytes buffer (i + 1) n

bytes_from-put :
    (pages : List (ℕ → ℕ)) (buffer : ℕ → ℕ) (off i n : ℕ)
    → ((k : ℕ) → k < i + n → contents pages (off + k) ≡ buffer k)
    → bytes_from pages (off + i) n ≡ buffer_bytes buffer i n
bytes_from-put pages buffer off i zero h = refl
bytes_from-put pages buffer off i (suc n) h =
    let e : off + i + 1 ≡ off + (i + 1) = omega arith in
    rw e (
      ap (λ b. b ∷ bytes_from pages (off + (i + 1)) n) (h i (omega arith))
      ∙ ap (λ bs. buffer i ∷ bs)
          (bytes_from-put pages buffer off (i + 1) n (λ k lt. h k (omega (arith, lt)))))

-- `ramfs_write` of at least one byte to a file whose size is that of its pages, with its position in it. The call ends
-- with the position behind the bytes, the size is again that of the pages, and the bytes in front of
-- the position are unchanged. Reading as many bytes from the old position gives the buffer's.
pub ramfs_read-write :
    (fresh : ℕ → ℕ) (f : RamFile) (buffer : ℕ → ℕ) (n : ℕ)
    → f.size ≡ page_size * length f.pages
    → f.pos ≤ f.size
    → 0 < n
    → (f' : RamFile) × (ramfs_write fresh f buffer n ≡ some f')
      × (f'.pos ≡ f.pos + n)
      × (f'.size ≡ page_size * length f'.pages)
      × ((i : ℕ) → i < f.pos → contents f'.pages i ≡ contents f.pages i)
      × (ramfs_read (record f' { pos = f.pos }) n ≡ bytes_read f' (buffer_bytes buffer 0 n))
unfolding ramfs_write
ramfs_read-write fresh f buffer n s inside pos =
    let req : ℕ = (f.pos + n) - f.size in
    let grown : RamFile = grow_loop req fresh req f in
    let g : Grown f req grown = grow_loop-Grown req fresh req f (omega arith) s in
    let some_page : (length grown.pages == 0) ≡ false = ground (arith, g.room, pos, inside) in
    let (ps, e, w) =
      write_at-Written grown.pages f.pos f.pos buffer n refl (omega (arith, g.room)) in
    let f' : RamFile = record grown { pages = ps; pos = f.pos + n } in
    let same : f.pos + 0 ≡ f.pos = omega arith in
    let bytes =
      bytes_from-put ps buffer f.pos 0 n
        (λ k lt. let z : 0 + k ≡ k = omega arith in w.put k (omega (arith, lt)) ∙ ap buffer z) in
    (
      f',
      rw (some_page, e) refl,
      refl,
      omega (arith, g.sized, w.same_length),
      λ i h. w.kept_before i h ∙ g.kept i (omega (arith, h, inside, s)),
      ramfs_read-bytes (record f' { pos = f.pos }) n (omega (arith, g.room, w.same_length))
          ∙ ap (bytes_read f') (ap (λ k. bytes_from ps k n) (sym same) ∙ bytes),
    )

-- A write of at least one byte that ends inside a page of the file: the bytes of that page behind the
-- ones written become 0.
pub ramfs_write-clears :
    (fresh : ℕ → ℕ) (f : RamFile) (buffer : ℕ → ℕ) (n i : ℕ)
    → f.size ≡ page_size * length f.pages
    → f.pos + n ≤ f.size
    → 0 < n
    → f.pos + n ≤ i
    → i / page_size ≡ (f.pos + n - 1) / page_size
    → (f' : RamFile) × (ramfs_write fresh f buffer n ≡ some f') × (contents f'.pages i ≡ 0)
unfolding ramfs_write
ramfs_write-clears fresh f buffer n i s inside pos after same =
    let req : ℕ = (f.pos + n) - f.size in
    let grown : RamFile = grow_loop req fresh req f in
    let g : Grown f req grown = grow_loop-Grown req fresh req f (omega arith) s in
    let some_page : (length grown.pages == 0) ≡ false = ground (arith, g.room, pos, inside) in
    let (ps, e, w) =
      write_at-Written grown.pages f.pos f.pos buffer n refl (omega (arith, g.room, inside)) in
    (
      record grown { pages = ps; pos = f.pos + n },
      rw (some_page, e) refl,
      w.cleared i pos after same,
    )
