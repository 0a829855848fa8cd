-- ===== src/Libk/Format/Digits.antt =====
-- The digits of kernel/libk/vsprintf.c, read back.
use native.Mathlib.Nat.{div-add-mod', div-lt_iff_lt-mul, mod-lt, pow-suc, pow-zero}
use monolith.Libk.Format.{backwards, digit_char, digit_loop}
use monolith.Prelude.{
  ==_iff, Bool-cases, List, [], arith, if◌then◌else◌, inl, inr, length, ltb, refl, suc, true, zero,
  ℕ, ◌%◌, ◌*◌, ◌++◌, ◌+◌, ◌-◌, ◌/◌, ◌<◌, ◌==◌, ◌^◌, ◌∷◌, ◌≡◌, ◌≤◌,
}

-- the value of a digit's character
abbrev pub digit_value : ℕ → ℕ
digit_value c = if ltb c 58 then c - 48 else c - 87

-- reads digits, the highest first, behind a number already read
abbrev pub read_digits : ℕ → ℕ → List ℕ → ℕ
read_digits base n [] = n
read_digits base n (c ∷ cs) = read_digits base (n * base + digit_value c) cs

digit_value-char : (d : ℕ) → d < 16 → digit_value (digit_char d) ≡ d
unfolding digit_char
digit_value-char d h = ground arith

read_digits-append :
    (base n : ℕ) (xs ys : List ℕ)
    → read_digits base n (xs ++ ys) ≡ read_digits base (read_digits base n xs) ys
read_digits-append base n [] ys = refl
read_digits-append base n (x ∷ xs) ys = read_digits-append base (n * base + digit_value x) xs ys

div-lt_pow : (base fuel num : ℕ) → 1 < base → num < base ^ suc fuel → num / base < base ^ fuel
div-lt_pow base fuel num lo h = (div-lt_iff_lt-mul (omega arith)).1 (rw (pow-suc base fuel) at h)

digit-lt : (base num : ℕ) → 1 < base → base ≤ 16 → num % base < 16
digit-lt base num lo hi = omega (arith, mod-lt num {m = base} (omega arith))

-- Enough fuel for the number's digits makes them stand for the number.
pub read-digit_loop :
    (fuel base num : ℕ)
    → 1 < base
    → base ≤ 16
    → num < base ^ fuel
    → read_digits base 0 (backwards (digit_loop fuel base num)) ≡ num
unfolding digit_loop backwards
read-digit_loop zero base num lo hi h = omega (arith, pow-zero base)
read-digit_loop (suc fuel) base num lo hi h =
    let smaller : num / base < base ^ fuel = div-lt_pow base fuel num lo h in
    let digit : num % base < 16 = digit-lt base num lo hi in
    let whole : num / base * base + num % base ≡ num = div-add-mod' num base in
    elim (Bool-cases (num / base == 0)) [
      | inl z ↦
          let none_left : num / base ≡ 0 = (==_iff (num / base) 0).0 z in
          let only : num % base ≡ num = omega (arith, rw none_left at whole) in
          rw (z, digit_value-char (num % base) digit, only) (omega arith)
      | inr z ↦
          rw
            (
              z,
              read_digits-append base 0 (backwards (digit_loop fuel base (num / base)))
                  (digit_char (num % base) ∷ []),
              read-digit_loop fuel base (num / base) lo hi smaller,
              digit_value-char (num % base) digit,
            )
            whole
    ]

-- A number below a power of the base has at most as many digits as the exponent says.
pub length-digit_loop :
    (fuel base num n : ℕ)
    → 1 < base
    → num < base ^ suc n
    → length (digit_loop fuel base num) ≤ suc n
unfolding digit_loop
length-digit_loop zero base num n lo h = omega arith
length-digit_loop (suc fuel) base num zero lo h =
    let z : (num / base == 0) ≡ true = ground (arith, div-lt_pow base 0 num lo h, pow-zero base) in
    rw z (omega arith)
length-digit_loop (suc fuel) base num (suc n) lo h =
    let smaller : num / base < base ^ suc n = div-lt_pow base (suc n) num lo h in
    let ih = length-digit_loop fuel base (num / base) n lo smaller in
    elim (Bool-cases (num / base == 0)) [
      | inl z ↦ rw z (omega arith)
      | inr z ↦ rw z (omega (arith, ih))
    ]
