-- ===== src/Prelude/Bits.antt =====
-- The bits of a machine word that is held as a native number: how `|`, `&`, `~` and `1 << k` act on
-- them, at every width.
use Prim.Native.Nat.{bit_and-bitwise, bit_or-bitwise, digits}
use mathlib.Core.Path.{subst}
use native.Mathlib.Nat.{mul_assoc, pow-suc}
use monolith.Prelude.{
  ==_iff, Bool-cases, ap, arith, bit_and, bit_or, if◌then◌else◌, inl, inr, max, min, refl, suc, sym,
  zero, ℕ, ◌%◌, ◌*◌, ◌+◌, ◌-◌, ◌/◌, ◌<◌, ◌==◌, ◌^◌, ◌∙◌, ◌≡◌, ◌≢◌, ◌≤◌,
}

-- bit k of w, as a number
abbrev pub bit : ℕ → ℕ → ℕ
bit w zero = w % 2
bit w (suc k) = bit (w / 2) k

-- `~w` at n bits
abbrev pub bit_not : ℕ → ℕ → ℕ
bit_not n w = 2 ^ n - 1 - w

pub bit-le : (w k : ℕ) → bit w k ≤ 1
bit-le w zero = omega arith
bit-le w (suc k) = bit-le (w / 2) k

pub bit-zero : (k : ℕ) → bit 0 k ≡ 0
bit-zero zero = refl
bit-zero (suc k) = bit-zero k

pub pow-pos : (n : ℕ) → 0 < 2 ^ n
pow-pos zero = omega arith
pow-pos (suc n) = omega (arith, pow-suc 2 n, pow-pos n)

-- the native operations, one digit at a time
module _ (rest : ℕ → ℕ) (op : ℕ → ℕ → ℕ) where
  digits-fuel_any : (n m x y : ℕ) → x ≤ n → x ≤ m → digits rest op n x y ≡ digits rest op m x y
  digits-fuel_any zero zero x y hn hm = refl
  digits-fuel_any zero (suc m) zero y hn hm = refl
  digits-fuel_any (suc n) zero zero y hn hm = refl
  digits-fuel_any (suc n) (suc m) zero y hn hm = refl
  digits-fuel_any zero (suc m) (suc x) y hn hm = absurd (omega arith)
  digits-fuel_any (suc n) zero (suc x) y hn hm = absurd (omega arith)
  digits-fuel_any (suc n) (suc m) (suc x) y hn hm =
      let half = digits-fuel_any n m (suc x / 2) (y / 2) (omega arith) (omega arith) in
      omega (arith, half)

or_zero : (b : ℕ) → bit_or 0 b ≡ b
or_zero b = bit_or-bitwise 0 b

and_zero : (b : ℕ) → bit_and 0 b ≡ 0
and_zero b = bit_and-bitwise 0 b

or_step : (a b : ℕ) → bit_or a b ≡ bit_or (a / 2) (b / 2) * 2 + max (a % 2) (b % 2)
or_step zero b = omega (arith, or_zero b, or_zero (b / 2))
or_step (suc a) b =
    let halves =
      digits-fuel_any (λ y. y) max a (suc a / 2) (suc a / 2) (b / 2) (omega arith) (omega arith) in
    omega (arith, halves, bit_or-bitwise (suc a) b, bit_or-bitwise (suc a / 2) (b / 2))

and_step : (a b : ℕ) → bit_and a b ≡ bit_and (a / 2) (b / 2) * 2 + min (a % 2) (b % 2)
and_step zero b = omega (arith, and_zero b, and_zero (b / 2))
and_step (suc a) b =
    let halves =
      digits-fuel_any (λ y. zero) min a (suc a / 2) (suc a / 2) (b / 2) (omega arith)
        (omega arith) in
    omega (arith, halves, bit_and-bitwise (suc a) b, bit_and-bitwise (suc a / 2) (b / 2))

pub bit-or : (a b k : ℕ) → bit (bit_or a b) k ≡ max (bit a k) (bit b k)
bit-or a b zero = omega (arith, or_step a b)
bit-or a b (suc k) =
    let e : bit_or a b / 2 ≡ bit_or (a / 2) (b / 2) = omega (arith, or_step a b) in
    rw e (bit-or (a / 2) (b / 2) k)

pub bit-and : (a b k : ℕ) → bit (bit_and a b) k ≡ min (bit a k) (bit b k)
bit-and a b zero = omega (arith, and_step a b)
bit-and a b (suc k) =
    let e : bit_and a b / 2 ≡ bit_and (a / 2) (b / 2) = omega (arith, and_step a b) in
    rw e (bit-and (a / 2) (b / 2) k)

-- Masking by n ones leaves an n-bit word as it is.
pub and_ones : (n w : ℕ) → w < 2 ^ n → bit_and w (2 ^ n - 1) ≡ w
and_ones zero w h = let e : w ≡ 0 = omega arith in rw e (and_zero 0)
and_ones (suc n) w h =
    let e : (2 ^ suc n - 1) / 2 ≡ 2 ^ n - 1 = omega (arith, pow-suc 2 n, pow-pos n) in
    let r : bit_and (w / 2) ((2 ^ suc n - 1) / 2) ≡ w / 2 =
      rw e (and_ones n (w / 2) (omega (arith, pow-suc 2 n))) in
    omega (arith, and_step w (2 ^ suc n - 1), pow-suc 2 n, pow-pos n)

-- A mask whose lowest bit is clear works on the halves.
pub and_double : (w v m l : ℕ) → v ≡ w / 2 → l ≡ m * 2 → bit_and w l ≡ bit_and v m * 2
and_double w v m l p q =
    let e : l / 2 ≡ m = omega arith in
    let r : bit_and (w / 2) (l / 2) ≡ bit_and v m = rw (e, p) in omega (arith, and_step w l)

-- `1 << k` has the bit k alone.
pub bit-pow_self : (k : ℕ) → bit (2 ^ k) k ≡ 1
bit-pow_self zero = refl
bit-pow_self (suc k) =
    let e : 2 ^ suc k / 2 ≡ 2 ^ k = omega (arith, pow-suc 2 k) in rw e (bit-pow_self k)

pub bit-pow_ne : (j k : ℕ) → j ≢ k → bit (2 ^ j) k ≡ 0
bit-pow_ne zero zero h = absurd (h refl)
bit-pow_ne zero (suc k) h = bit-zero k
bit-pow_ne (suc j) zero h = omega (arith, pow-suc 2 j)
bit-pow_ne (suc j) (suc k) h =
    let e : 2 ^ suc j / 2 ≡ 2 ^ j = omega (arith, pow-suc 2 j) in
    rw e (bit-pow_ne j k (λ p. h (ap suc p)))

-- Complementing an n-bit word flips each of its n bits.
pub bit-not : (n w k : ℕ) → w < 2 ^ n → k < n → bit (bit_not n w) k ≡ 1 - bit w k
bit-not zero w k hw hk = absurd (omega arith)
bit-not (suc n) w zero hw hk = omega (arith, pow-suc 2 n, pow-pos n)
bit-not (suc n) w (suc k) hw hk =
    let e : bit_not (suc n) w / 2 ≡ bit_not n (w / 2) = omega (arith, pow-suc 2 n, pow-pos n) in
    rw e (bit-not n (w / 2) k (omega (arith, pow-suc 2 n)) (omega arith))

-- The operations stay inside the width.
pub or-lt : (n a b : ℕ) → a < 2 ^ n → b < 2 ^ n → bit_or a b < 2 ^ n
or-lt zero a b ha hb = let e : a ≡ 0 = omega arith in rw e (omega (arith, or_zero b))
or-lt (suc n) a b ha hb = omega (
  arith,
  pow-suc 2 n,
  or_step a b,
  or-lt n (a / 2) (b / 2) (omega (arith, pow-suc 2 n)) (omega (arith, pow-suc 2 n)),
)

-- A word made of n ones has each of its bits set.
pub bit-ones : (n k : ℕ) → k < n → bit (2 ^ n - 1) k ≡ 1
bit-ones n k h =
    let e : 2 ^ n - 1 ≡ bit_not n 0 = omega arith in
    rw e (omega (arith, bit-not n 0 k (pow-pos n) h, bit-zero k))

pub and-le : (n a b : ℕ) → a < 2 ^ n → bit_and a b ≤ a
and-le zero a b ha = let e : a ≡ 0 = omega arith in rw e (omega (arith, and_zero b))
and-le (suc n) a b ha =
    omega (arith, pow-suc 2 n, and_step a b, and-le n (a / 2) (b / 2) (omega (arith, pow-suc 2 n)))

pub pow-lt : (k n : ℕ) → k < n → 2 ^ k < 2 ^ n
pow-lt k zero h = absurd (omega arith)
pow-lt zero (suc n) h = omega (arith, pow-suc 2 n, pow-pos n)
pow-lt (suc k) (suc n) h = omega (arith, pow-suc 2 n, pow-suc 2 k, pow-lt k n (omega arith))

-- A word with all of its n bits clear is zero, and the other way round.
pub eq-zero_of_bits : (n w : ℕ) → w < 2 ^ n → ((k : ℕ) → k < n → bit w k ≡ 0) → w ≡ 0
eq-zero_of_bits zero w hw h = omega arith
eq-zero_of_bits (suc n) w hw h =
    let low : w % 2 ≡ 0 = h 0 (omega arith) in
    let high : w / 2 ≡ 0 =
      eq-zero_of_bits n (w / 2) (omega (arith, pow-suc 2 n)) (λ k hk. h (suc k) (omega arith)) in
    omega arith

-- Two words of n bits with the same bits are equal.
pub eq_of_bits : (n a b : ℕ) → a < 2 ^ n → b < 2 ^ n → ((k : ℕ) → k < n → bit a k ≡ bit b k) → a ≡ b
eq_of_bits zero a b ha hb h = omega arith
eq_of_bits (suc n) a b ha hb h =
    let low : a % 2 ≡ b % 2 = h 0 (omega arith) in
    let high : a / 2 ≡ b / 2 =
      eq_of_bits n (a / 2) (b / 2) (omega (arith, pow-suc 2 n)) (omega (arith, pow-suc 2 n))
        (λ k hk. h (suc k) (omega arith)) in
    omega arith

-- Setting the bit j of a word.
pub bit-set_bit : (w j k : ℕ) → bit (bit_or w (2 ^ j)) k ≡ (if j == k then 1 else bit w k)
bit-set_bit w j k = elim (Bool-cases (j == k)) [
  | inl e ↦ rw e (
      let q : j ≡ k = (==_iff j k).0 e in
      omega (
        arith,
        bit-or w (2 ^ j) k,
        bit-le w k,
        subst (λ x. bit (2 ^ j) x ≡ 1) q (bit-pow_self j),
        bit-le (2 ^ j) k,
      ))
  | inr e ↦ rw e (omega (arith, bit-or w (2 ^ j) k, bit-pow_ne j k (ground arith)))
]

-- Clearing the bit j of an n-bit word.
pub bit-clear_bit :
    (n w j k : ℕ)
    → w < 2 ^ n
    → j < n
    → k < n
    → bit (bit_and w (bit_not n (2 ^ j))) k ≡ (if j == k then 0 else bit w k)
bit-clear_bit n w j k hw hj hk = elim (Bool-cases (j == k)) [
  | inl e ↦ rw e (
      let q : j ≡ k = (==_iff j k).0 e in
      omega (
        arith,
        bit-and w (bit_not n (2 ^ j)) k,
        bit-not n (2 ^ j) k (pow-lt j n hj) hk,
        subst (λ x. bit (2 ^ j) x ≡ 1) q (bit-pow_self j),
      ))
  | inr e ↦ rw e (
      omega (
        arith,
        bit-and w (bit_not n (2 ^ j)) k,
        bit-not n (2 ^ j) k (pow-lt j n hj) hk,
        bit-pow_ne j k (ground arith),
        bit-le w k,
      ))
]

and_zero_right : (n w : ℕ) → w ≤ n → bit_and w 0 ≡ 0
and_zero_right zero w h = let e : w ≡ 0 = omega arith in rw e (and_zero 0)
and_zero_right (suc n) w h =
    omega (arith, and_double w (w / 2) 0 0 refl refl, and_zero_right n (w / 2) (omega arith))

-- Masking with one bit.
pub and_pow : (k w : ℕ) → bit_and w (2 ^ k) ≡ bit w k * 2 ^ k
and_pow zero w = omega (arith, and_step w 1, and_zero_right (w / 2) (w / 2) (omega arith))
and_pow (suc k) w =
    let half : bit_and w (2 ^ suc k) ≡ bit (w / 2) k * 2 ^ k * 2 = omega (
      arith,
      and_double w (w / 2) (2 ^ k) (2 ^ suc k) refl (omega (arith, pow-suc 2 k)),
      and_pow k (w / 2),
    ) in
    let power : 2 ^ suc k ≡ 2 ^ k * 2 = omega (arith, pow-suc 2 k) in
    half ∙ (mul_assoc (bit (w / 2) k) (2 ^ k) 2 ∙ ap (λ x. bit (w / 2) k * x) (sym power))
