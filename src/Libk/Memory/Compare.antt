-- ===== src/Libk/Memory/Compare.antt =====
-- The comparisons of kernel/libk/string.c, and how they fit `strncpy`.
use native.Mathlib.Decide.{ℕ_discrete}
use monolith.Libk.Memory.{Sign, memcmp, negative, none_differs, positive, strncmp, strncpy}
use monolith.Prelude.{
  &&_false, ==-ne, ==_iff, Bool-cases, List, [], ap, arith, drop, false, get_or, if◌then◌else◌, inl,
  inr, ltb, not, refl, replicate, suc, sym, true, zero, ℕ, ◌&&◌, ◌==◌, ◌↔◌, ◌∙◌, ◌∷◌, ◌≡◌,
}

-- the bytes of a sequence at the places from 0 to `n`, with 0 bytes behind its end
abbrev pub first_bytes : List ℕ → ℕ → List ℕ
first_bytes s zero = []
first_bytes s (suc n) = get_or s 0 0 ∷ first_bytes (drop 1 s) n

-- the sign of the first difference of two sequences of one length
abbrev pub lexicographic : List ℕ → List ℕ → Sign
lexicographic [] ys = none_differs
lexicographic (x ∷ xs) [] = none_differs
lexicographic (x ∷ xs) (y ∷ ys) =
    if ltb x y then negative else (if ltb y x then positive else lexicographic xs ys)

-- `memcmp` is the lexicographic comparison of the first `n` bytes.
pub memcmp-lexicographic :
    (p1 p2 : List ℕ) (n : ℕ) → memcmp p1 p2 n ≡ lexicographic (first_bytes p1 n) (first_bytes p2 n)
unfolding memcmp
memcmp-lexicographic p1 p2 zero = refl
memcmp-lexicographic p1 p2 (suc n) = ground (arith, memcmp-lexicographic (drop 1 p1) (drop 1 p2) n)

strncpy-empty : (n : ℕ) → strncpy [] n ≡ replicate n 0
unfolding strncpy
strncpy-empty zero = refl
strncpy-empty (suc n) = ap (λ cs. 0 ∷ cs) (strncpy-empty n)

strncpy-suc :
    (s : List ℕ) (n : ℕ)
    → strncpy s (suc n)
      ≡ (if get_or s 0 0 == 0 then replicate (suc n) 0 else get_or s 0 0 ∷ strncpy (drop 1 s) n)
unfolding strncpy
strncpy-suc [] n = ap (λ cs. 0 ∷ cs) (strncpy-empty n)
strncpy-suc (c ∷ s) n = refl

strncpy-first : (s : List ℕ) (n : ℕ) → get_or (strncpy s (suc n)) 0 0 ≡ get_or s 0 0
strncpy-first s n = rw (strncpy-suc s n) (elim (Bool-cases (get_or s 0 0 == 0)) [
  | inl z ↦ rw z (sym ((==_iff (get_or s 0 0) 0).0 z))
  | inr z ↦ rw z refl
])

strncmp-suc :
    (s d : List ℕ) (n : ℕ)
    → strncmp s d (suc n) ≡ (
        if not (get_or s 0 0 == 0) && (get_or s 0 0 == get_or d 0 0)
        then strncmp (drop 1 s) (drop 1 d) n
        else (get_or s 0 0, get_or d 0 0))
unfolding strncmp
strncmp-suc s d n = refl

-- `strncmp` returns 0 exactly for strings of which `strncpy` of the same length writes the same
-- bytes.
pub strncmp-strncpy :
    (s d : List ℕ) (n : ℕ) → let (a, b) = strncmp s d n in (a ≡ b) ↔ (strncpy s n ≡ strncpy d n)
unfolding strncmp strncpy
strncmp-strncpy s d zero = (λ e. refl, λ e. refl)
strncmp-strncpy s d (suc n) =
    let a : ℕ = get_or s 0 0 in
    let b : ℕ = get_or d 0 0 in
    elim (ℕ_discrete a b) [
      | no ne ↦
          rw (strncmp-suc s d n, ==-ne a b ne, &&_false)
            (
              λ e. absurd (ne e),
              λ e. sym (strncpy-first s n) ∙ ap (λ cs. get_or cs 0 0) e ∙ strncpy-first d n,
            )
      | yes e ↦ elim (Bool-cases (b == 0)) [
        | inl z ↦
            let za : (a == 0) ≡ true = ground arith in
            rw (strncmp-suc s d n, strncpy-suc s n, strncpy-suc d n, za, z) (λ q. refl, λ q. e)
        | inr z ↦
            let za : (a == 0) ≡ false = ground arith in
            let ih = strncmp-strncpy (drop 1 s) (drop 1 d) n in
            rw (strncmp-suc s d n, strncpy-suc s n, strncpy-suc d n, za, z, (==_iff a b).1 e)
              (λ q. rw (e, ih.0 q) refl, λ q. ih.1 (ap (drop 1) q))
      ]
    ]
