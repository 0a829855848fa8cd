-- ===== src/Fs/Ramfs/Growing.antt =====
-- The pages that `ramfs_write` of kernel/fs/ramfs/ramfs.c adds to a file.
use native.Mathlib.Decide.{dec_lt}
use monolith.Fs.Ramfs.{RamFile, grow_loop}
use monolith.Fs.Ramfs.Bytes.{contents}
use monolith.Prelude.{
  Bool-cases, List, [], arith, false, inl, inr, length, length-append, ltb, refl, suc, true, zero,
  ℕ, ◌*◌, ◌++◌, ◌+◌, ◌-◌, ◌<◌, ◌==◌, ◌∙◌, ◌∷◌, ◌≡◌, ◌≤◌,
}
use monolith.Prelude.Words.{page_size}

pub contents-append :
    (xs ys : List (ℕ → ℕ)) (i : ℕ)
    → i < page_size * length xs
    → contents (xs ++ ys) i ≡ contents xs i
contents-append [] ys i h = absurd (omega (arith, h))
contents-append (x ∷ xs) ys i h = elim (dec_lt i page_size) [
  | yes near ↦ let e : ltb i page_size ≡ true = ground (arith, near) in rw e refl
  | no far ↦
      let e : ltb i page_size ≡ false = ground (arith, far) in
      rw e (contents-append xs ys (i - page_size) (omega (arith, far, h)))
]

-- room for `req` bytes more, and nothing else changed
pub record Grown (f : RamFile) (req : ℕ) (f' : RamFile) : Type 0 where
  pub sized : f'.size ≡ page_size * length f'.pages
  pub same_pos : f'.pos ≡ f.pos
  pub room : f.size + req ≤ page_size * length f'.pages
  pub kept : (i : ℕ) → i < page_size * length f.pages → contents f'.pages i ≡ contents f.pages i

pub grow_loop-Grown :
    (fuel : ℕ) (fresh : ℕ → ℕ) (req : ℕ) (f : RamFile)
    → req ≤ fuel
    → f.size ≡ page_size * length f.pages
    → Grown f req (grow_loop fuel fresh req f)
unfolding grow_loop
grow_loop-Grown zero fresh req f le s = record {
  sized = s;
  same_pos = refl;
  room = omega (arith, le, s);
  kept = λ i h. refl;
}
grow_loop-Grown (suc fuel) fresh req f le s =
    let f1 : RamFile = record f { pages = f.pages ++ (fresh ∷ []); size = f.size + page_size } in
    let longer : length (f.pages ++ (fresh ∷ [])) ≡ length f.pages + 1 =
      length-append f.pages (fresh ∷ []) in
    let s1 : f1.size ≡ page_size * length f1.pages = omega (arith, s, longer) in
    let kept1 : (i : ℕ)
        → i < page_size * length f.pages
        → contents f1.pages i ≡ contents f.pages i =
      λ i h. contents-append f.pages (fresh ∷ []) i h in
    elim (Bool-cases (req == 0)) [
      | inl done ↦
          let e : req ≡ 0 = ground (arith, done) in
          rw done
            (record { sized = s; same_pos = refl; room = omega (arith, e, s); kept = λ i h. refl })
      | inr left ↦ elim (Bool-cases (ltb req page_size)) [
        | inl few ↦
            let lt : req < page_size = ground (arith, few) in
            rw (left, few)
              (record {
                sized = s1;
                same_pos = refl;
                room = omega (arith, lt, s, longer);
                kept = kept1;
              })
        | inr many ↦
            let ge : page_size ≤ req = ground (arith, many) in
            let g = grow_loop-Grown fuel fresh (req - page_size) f1 (omega (arith, le, ge)) s1 in
            rw (left, many)
              (record {
                sized = g.sized;
                same_pos = g.same_pos;
                room = omega (arith, g.room, ge);
                kept = λ i h. g.kept i (omega (arith, h, longer)) ∙ kept1 i h;
              })
      ]
    ]
