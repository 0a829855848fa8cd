-- ===== src/Fs/Ramfs/Writing.antt =====
-- `ramfs_write` of kernel/fs/ramfs/ramfs.c on the bytes of a file.
use mathlib.Core.Path.{subst}
use native.Mathlib.Decide.{dec_lt}
use monolith.Fs.Ramfs.{amount_in, write_loop, write_page}
use monolith.Fs.Ramfs.Bytes.{contents}
use monolith.Fs.Ramfs.Reading.{Amount, amount_in-Amount, next_offset}
use monolith.Prelude.{
  Bool-cases, List, [], ap, arith, false, inl, inr, length, ltb, refl, some, suc, sym, true, ℕ, ◌%◌,
  ◌*◌, ◌+◌, ◌-◌, ◌/◌, ◌<◌, ◌==◌, ◌∙◌, ◌∷◌, ◌≡◌, ◌≤◌,
}
use monolith.Prelude.Words.{page_size}

-- what the bytes are after `n` bytes of the buffer, from `start` on, have been put at `off`
pub record Written (old new : List (ℕ → ℕ)) (off : ℕ) (buffer : ℕ → ℕ) (start n : ℕ) : Type 0 where
  pub same_length : length new ≡ length old
  pub put : (i : ℕ) → i < n → contents new (off + i) ≡ buffer (start + i)
  pub kept_before : (i : ℕ) → i < off → contents new i ≡ contents old i
  pub cleared :
      (i : ℕ) → 0 < n → off + n ≤ i → i / page_size ≡ (off + n - 1) / page_size → contents new i ≡ 0
  pub kept_behind :
      (i : ℕ)
      → (off + n + page_size - 1) / page_size * page_size ≤ i
      → contents new i ≡ contents old i

nothing-Written :
    (old : List (ℕ → ℕ)) (off : ℕ) (buffer : ℕ → ℕ) (start : ℕ) → Written old old off buffer start 0
nothing-Written old off buffer start = record {
  same_length = refl;
  put = λ i h. absurd (omega (arith, h));
  kept_before = λ i h. refl;
  cleared = λ i h _ _. absurd (omega (arith, h));
  kept_behind = λ i h. refl;
}

-- the last round
last-Written :
    (page : ℕ → ℕ) (rest : List (ℕ → ℕ)) (off : ℕ) (buffer : ℕ → ℕ) (start n : ℕ)
    → 0 < n
    → off + n ≤ page_size
    → Written (page ∷ rest) (write_page page off n buffer start ∷ rest) off buffer start n
unfolding write_page
last-Written page rest off buffer start n pos room = record {
  same_length = refl;
  put = λ i h.
      let e : start + ((off + i) - off) ≡ start + i = omega arith in
      let near : ltb (off + i) page_size ≡ true = ground (arith, h, room) in
      let in_it : ltb (off + i) (off + n) ≡ true = ground (arith, h) in
      let after : ltb (off + i) off ≡ false = ground arith in rw (near, after, in_it, e) refl;
  kept_before = λ i h. ground (arith, h, room);
  cleared = λ i _ h same.
      let near : ltb i page_size ≡ true = ground (arith, h, room, same) in
      let out : ltb i (off + n) ≡ false = ground (arith, h) in
      let after : ltb i off ≡ false = ground (arith, h) in rw (near, after, out) refl;
  kept_behind =
      λ i h. let far : ltb i page_size ≡ false = ground (arith, h, pos, room) in rw far refl;
}

-- a round that fills its page, and the others
more-Written :
    (page : ℕ → ℕ) (rest ps : List (ℕ → ℕ)) (off amount : ℕ) (buffer : ℕ → ℕ) (start n : ℕ)
    → off + amount ≡ page_size
    → amount < n
    → Written rest ps 0 buffer (start + amount) (n - amount)
    → Written (page ∷ rest) (write_page page off amount buffer start ∷ ps) off buffer start n
unfolding write_page
more-Written page rest ps off amount buffer start n full le w = record {
  same_length = omega (arith, w.same_length);
  put = λ i h. elim (dec_lt i amount) [
    | yes first ↦
        let e : start + ((off + i) - off) ≡ start + i = omega arith in
        let near : ltb (off + i) page_size ≡ true = ground (arith, first, full) in
        let in_it : ltb (off + i) (off + amount) ≡ true = ground (arith, first) in
        let after : ltb (off + i) off ≡ false = ground arith in rw (near, after, in_it, e) refl
    | no later ↦
        let far : ltb (off + i) page_size ≡ false = ground (arith, later, full) in
        let e : off + i - page_size ≡ 0 + (i - amount) = omega (arith, later, full) in
        let b : start + amount + (i - amount) ≡ start + i = omega (arith, later) in
        rw far (ap (contents ps) e ∙ w.put (i - amount) (omega (arith, later, h)) ∙ ap buffer b)
  ];
  kept_before = λ i h. ground (arith, h, full);
  cleared = λ i p h same.
      let far : ltb i page_size ≡ false = ground (arith, h, full, le) in
      rw far (
        w.cleared (i - page_size) (omega (arith, le)) (omega (arith, h, full, le))
          (omega (arith, same, full, h, le)));
  kept_behind = λ i h.
      let far : ltb i page_size ≡ false = ground (arith, h, full, le) in
      rw far (w.kept_behind (i - page_size) (omega (arith, h, full, le)));
}

write_loop-zero :
    (rest : List (ℕ → ℕ)) (pos : ℕ) (buffer : ℕ → ℕ) (start : ℕ)
    → write_loop rest pos buffer start 0 ≡ some rest
unfolding write_loop
write_loop-zero [] pos buffer start = refl
write_loop-zero (page ∷ rest) pos buffer start = refl

-- the rounds behind a round
write_loop-later :
    (page : ℕ → ℕ) (rest : List (ℕ → ℕ)) (pos : ℕ) (buffer : ℕ → ℕ) (start n amount : ℕ)
    → 0 < n
    → Amount pos n amount
    → pos % page_size + n ≤ page_size * suc (length rest)
    → ((pos + amount) % page_size + (n - amount) ≤ page_size * length rest
        → (ps : List (ℕ → ℕ)) × (write_loop rest (pos + amount) buffer (start + amount) (n - amount)
            ≡ some ps)
          × Written rest ps ((pos + amount) % page_size) buffer (start + amount) (n - amount))
    → (ps : List (ℕ → ℕ)) × (write_loop rest (pos + amount) buffer (start + amount) (n - amount)
        ≡ some ps)
      × Written
          (page ∷ rest)
          (write_page page (pos % page_size) amount buffer start ∷ ps)
          (pos % page_size)
          buffer
          start
          n
write_loop-later page rest pos buffer start n amount some_left a h later = elim (dec_lt amount n) [
  | no done ↦
      let all : amount ≡ n = omega (arith, done, a.within) in
      let e : n - amount ≡ 0 = omega (arith, all) in
      (
        rest,
        rw e (write_loop-zero rest (pos + amount) buffer (start + amount)),
        subst
            (λ m.
              Written (page ∷ rest) (write_page page (pos % page_size) m buffer start ∷ rest)
                (pos % page_size) buffer start n)
            (sym all)
            (last-Written page rest (pos % page_size) buffer start n some_left
              (omega (arith, all, a.in_page))),
      )
  | yes more ↦
      let full : pos % page_size + amount ≡ page_size = elim a.all_or_full [
        | inl all ↦ absurd (omega (arith, all, more))
        | inr it ↦ it
      ] in
      let zero_next : (pos + amount) % page_size ≡ 0 = next_offset pos amount full in
      let (ps, e, w) = later (omega (arith, zero_next, full, h, a.within)) in
      (
        ps,
        e,
        more-Written page rest ps (pos % page_size) amount buffer start n full more
            (subst (λ m. Written rest ps m buffer (start + amount) (n - amount)) zero_next w),
      )
]

pub write_loop-Written :
    (rest : List (ℕ → ℕ)) (pos : ℕ) (buffer : ℕ → ℕ) (start n : ℕ)
    → pos % page_size + n ≤ page_size * length rest
    → (ps : List (ℕ → ℕ)) × (write_loop rest pos buffer start n ≡ some ps)
      × Written rest ps (pos % page_size) buffer start n
unfolding write_loop
write_loop-Written [] pos buffer start n h =
    let e : n ≡ 0 = omega (arith, h) in
    ([], rw e refl, rw e (nothing-Written [] (pos % page_size) buffer start))
write_loop-Written (page ∷ rest) pos buffer start n h =
    let amount = amount_in pos n in
    elim (Bool-cases (n == 0)) [
      | inl none_left ↦
          let e : n ≡ 0 = ground (arith, none_left) in
          (
            page ∷ rest,
            rw e refl,
            rw e (nothing-Written (page ∷ rest) (pos % page_size) buffer start),
          )
      | inr left ↦
          let (ps, e, w) =
            write_loop-later page rest pos buffer start n amount (ground (arith, left))
              (amount_in-Amount pos n) h
              (write_loop-Written rest (pos + amount) buffer (start + amount) (n - amount)) in
          (write_page page (pos % page_size) amount buffer start ∷ ps, rw (left, e) refl, w)
    ]
