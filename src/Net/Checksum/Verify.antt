-- ===== src/Net/Checksum/Verify.antt =====
-- A header with the checksum of kernel/net/ipv4/ipv4.c in it is verified by the same sum.
use native.Mathlib.Decide.{ℕ_discrete}
use monolith.Net.Checksum.{checksum_loop, fold_sum, ip_checksum}
use monolith.Prelude.{List, [], arith, inl, inr, ℕ, ◌%◌, ◌++◌, ◌+◌, ◌-◌, ◌<◌, ◌∷◌, ◌≡◌, ◌≤◌, ◌⊎◌}

abbrev pub AllWords : List ℕ → Type 0
AllWords [] = Unit
AllWords (w ∷ ws) = (w < 0x10000) × AllWords ws

abbrev pub total : List ℕ → ℕ
total [] = 0
total (w ∷ ws) = w + total ws

-- `r` is the 16-bit ones' complement form of a sum: 0 for 0 alone, and 0xFFFF for its multiples.
record Folded (sum r : ℕ) : Type 0 where
  short : r < 0x10000
  same : r % 0xFFFF ≡ sum % 0xFFFF
  kind : ((r ≡ 0) × (sum ≡ 0)) ⊎ ((0 < r) × (0 < sum))

fold_sum-Folded : (sum : ℕ) → sum < 0x1FFFF → Folded sum (fold_sum sum)
unfolding fold_sum
fold_sum-Folded sum h = record {
  short = ground arith;
  same = ground arith;
  kind = elim (ℕ_discrete sum 0) [
    | yes z ↦ inl (ground arith, z)
    | no ne ↦ inr (ground arith, ground arith)
  ];
}

fold_pos : (sum : ℕ) → fold_sum sum ≤ sum
unfolding fold_sum
fold_pos sum = ground arith

loop-Folded :
    (sum : ℕ) (ws : List ℕ)
    → sum < 0x10000
    → AllWords ws
    → Folded (sum + total ws) (checksum_loop sum ws)
unfolding checksum_loop
loop-Folded sum [] h a = record {
  short = h;
  same = omega arith;
  kind = elim (ℕ_discrete sum 0) [
    | yes z ↦ inl (z, omega arith)
    | no ne ↦ inr (omega arith, omega arith)
  ];
}
loop-Folded sum (w ∷ ws) h a =
    let f = fold_sum-Folded (sum + w) (omega (arith, a.0)) in
    let r = loop-Folded (fold_sum (sum + w)) ws f.short a.1 in
    record {
      short = r.short;
      same = omega (arith, r.same, f.same);
      kind = elim r.kind [
        | inr pos ↦ inr (pos.0, omega (arith, pos.1, fold_pos (sum + w)))
        | inl (z, none_left) ↦ elim f.kind [
          | inl (z', y) ↦ inl (z, omega arith)
          | inr pos ↦ absurd (omega arith)
        ]
      ];
    }

total-append : (xs ys : List ℕ) → total (xs ++ ys) ≡ total xs + total ys
total-append [] ys = omega arith
total-append (x ∷ xs) ys = omega (arith, total-append xs ys)

AllWords-append : (xs ys : List ℕ) → AllWords xs → AllWords ys → AllWords (xs ++ ys)
AllWords-append [] ys a b = b
AllWords-append (x ∷ xs) ys a b = (a.0, AllWords-append xs ys a.1 b)

complement :
    (sum r r' : ℕ)
    → Folded sum r
    → Folded (sum + (0xFFFF - r % 0x10000)) r'
    → 0xFFFF - r' % 0x10000 ≡ 0
complement sum r r' f g = elim f.kind [
  | inl (z, y) ↦ elim g.kind [
    | inl (z', y') ↦ omega (arith, g.short, g.same)
    | inr pos ↦ omega (arith, pos.0, g.short, g.same)
  ]
  | inr pos ↦ elim g.kind [
    | inl (z', y') ↦ omega (arith, pos.1, f.short, f.same, g.short, g.same)
    | inr pos' ↦ omega (arith, pos.0, pos'.0, f.short, f.same, g.short, g.same)
  ]
]

-- If `ip_checksum` of a header of 16-bit words with 0 in the checksum's place is put into that place,
-- then `ip_checksum` of the whole header is 0.
pub ip_checksum-verifies :
    (front back : List ℕ)
    → AllWords front
    → AllWords back
    → ip_checksum (front ++ (ip_checksum (front ++ (0 ∷ back)) ∷ back)) ≡ 0
unfolding ip_checksum
ip_checksum-verifies front back a b =
    let c : ℕ = ip_checksum (front ++ (0 ∷ back)) in
    let word : c < 0x10000 = omega arith in
    let before =
      loop-Folded 0 (front ++ (0 ∷ back)) (omega arith)
        (AllWords-append front (0 ∷ back) a (omega arith, b)) in
    let after =
      loop-Folded 0 (front ++ (c ∷ back)) (omega arith)
        (AllWords-append front (c ∷ back) a (word, b)) in
    let start : 0 + total (front ++ (0 ∷ back)) ≡ total front + total back =
      omega (arith, total-append front (0 ∷ back)) in
    let end : 0 + total (front ++ (c ∷ back)) ≡ total front + total back + c =
      omega (arith, total-append front (c ∷ back)) in
    complement (total front + total back) (checksum_loop 0 (front ++ (0 ∷ back)))
      (checksum_loop 0 (front ++ (c ∷ back))) (rw start at before) (rw end at after)
