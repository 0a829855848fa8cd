-- ===== src/Libk/Format/Numbers.antt =====
-- What `num_to_str` and `ptr_to_str` of kernel/libk/vsprintf.c print, and that it reads back.
use native.Mathlib.Nat.{pow-le-pow_left}
use monolith.Libk.Format.{
  backwards, digit_loop, flag_signed, flag_zero, num_to_str, padding_of, ptr_to_str,
}
use monolith.Libk.Format.Digits.{length-digit_loop, read-digit_loop, read_digits}
use monolith.Prelude.{
  Bool, Bool-cases, List, [], arith, bit_and, false, if◌then◌else◌, inl, inr, length, length-append,
  ltb, not, refl, replicate, some, suc, ℕ, ◌%◌, ◌&&◌, ◌++◌, ◌-◌, ◌/◌, ◌<◌, ◌==◌, ◌^◌, ◌∷◌, ◌≡◌, ◌≤◌,
}
use monolith.Prelude.Bits.{and_pow}

backwards-append : (xs : List ℕ) (c : ℕ) → backwards (xs ++ (c ∷ [])) ≡ c ∷ backwards xs
unfolding backwards
backwards-append [] c = refl
backwards-append (x ∷ xs) c = rw (backwards-append xs c) refl

length-backwards : (xs : List ℕ) → length (backwards xs) ≡ length xs
unfolding backwards
length-backwards [] = refl
length-backwards (x ∷ xs) =
    omega (arith, length-append (backwards xs) (x ∷ []), length-backwards xs)

-- the minus sign of a negative number, if the lowest bit of the flags is 1
abbrev pub sign_of : Bool → ℕ → List ℕ
sign_of is_negative flags = if is_negative && (flags % 2 == 1) then 45 ∷ [] else []

-- zeros if the second bit of the flags is 1, else blanks
abbrev pub fill : ℕ → ℕ → List ℕ
fill flags count = replicate count (if flags / 2 % 2 == 1 then 48 else 32)

signed_iff : (flags : ℕ) → not (bit_and flags flag_signed == 0) ≡ (flags % 2 == 1)
signed_iff flags = ground (arith, and_pow 0 flags)

padding_of-fill : (flags width len : ℕ) → padding_of flags width len ≡ fill flags (width - len)
unfolding padding_of
padding_of-fill flags width len =
    let same : (bit_and flags flag_zero == 0) ≡ not (flags / 2 % 2 == 1) =
      ground (arith, and_pow 1 flags) in
    elim (Bool-cases (flags / 2 % 2 == 1)) [
      | inl e ↦ rw (padding_of, same, e) refl
      | inr e ↦ rw (padding_of, same, e) refl
    ]

fuel_enough : (base num : ℕ) → 1 < base → num < 2 ^ 64 → num < base ^ 64
fuel_enough base num lo h =
    let two : 2 ≤ base = omega arith in
    let le : 2 ^ 64 ≤ base ^ 64 = pow-le-pow_left two 64 in omega arith

accepted : (base : ℕ) → 1 < base → base ≤ 16 → (ltb base 2 ≡ false) × (ltb 16 base ≡ false)
accepted base lo hi = (ground (arith, lo), ground (arith, hi))

not_longer : (n : ℕ) → n ≤ 64 → ltb 64 n ≡ false
not_longer n h = ground (arith, h)

few_digits : (base num : ℕ) → 1 < base → num < 2 ^ 63 → length (digit_loop 64 base num) ≤ 63
few_digits base num lo h =
    let two : 2 ≤ base = omega arith in
    let le : 2 ^ 63 ≤ base ^ 63 = pow-le-pow_left two 63 in
    length-digit_loop 64 base num 62 lo (omega arith)

-- `num_to_str` of a magnitude below 2^63 in a base from 2 to 16 keeps within `tmp_str`. It prints
-- padding, then a minus sign if the number is negative and the flags ask for a sign, then digits that
-- read back as the magnitude. The padding is as many characters as sign and digits fall short of
-- the width, zeros if the flags say so, else blanks.
pub num_to_str-read :
    (is_negative : Bool) (num base flags width : ℕ)
    → 1 < base
    → base ≤ 16
    → num < 2 ^ 63
    → let sign = sign_of is_negative flags in
      (text : List ℕ) × (num_to_str is_negative num base flags width
        ≡ some (fill flags (width - length (sign ++ text)) ++ (sign ++ text)))
      × (read_digits base 0 text ≡ num)
unfolding num_to_str
num_to_str-read is_negative num base flags width lo hi h =
    let ds : List ℕ = digit_loop 64 base num in
    let (low, high) = accepted base lo hi in
    let few : length ds ≤ 63 = few_digits base num lo h in
    (
      backwards ds,
      elim (Bool-cases (is_negative && (flags % 2 == 1))) [
        | inl s ↦
            let len : length (ds ++ (45 ∷ [])) ≡ suc (length (backwards ds)) =
              omega (arith, length-append ds (45 ∷ []), length-backwards ds) in
            let fits : ltb 64 (suc (length (backwards ds))) ≡ false =
              not_longer (suc (length (backwards ds))) (omega (arith, few, length-backwards ds)) in
            rw
              (
                num_to_str,
                low,
                high,
                signed_iff flags,
                s,
                backwards-append ds 45,
                len,
                fits,
                padding_of-fill flags width (suc (length (backwards ds))),
              )
              refl
        | inr s ↦
            let fits : ltb 64 (length ds) ≡ false = not_longer (length ds) (omega (arith, few)) in
            rw
              (
                num_to_str,
                low,
                high,
                signed_iff flags,
                s,
                fits,
                padding_of-fill flags width (length ds),
                length-backwards ds,
              )
              refl
      ],
      read-digit_loop 64 base num lo hi (fuel_enough base num lo (omega arith)),
    )

-- `ptr_to_str` prints "0x", then padding, then digits that read back in base 16 as the address.
pub ptr_to_str-read :
    (ptr flags width : ℕ)
    → ptr < 2 ^ 64
    → (text : List ℕ) × (ptr_to_str ptr flags width
        ≡ 48 ∷ 120 ∷ (padding_of flags width (length text) ++ text))
      × (read_digits 16 0 text ≡ ptr)
unfolding ptr_to_str
ptr_to_str-read ptr flags width h =
    let ds : List ℕ = digit_loop 64 16 ptr in
    (
      backwards ds,
      rw (ptr_to_str, length-backwards ds) refl,
      read-digit_loop 64 16 ptr (omega arith) (omega arith) (fuel_enough 16 ptr (omega arith) h),
    )
