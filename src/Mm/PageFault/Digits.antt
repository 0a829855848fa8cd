-- ===== src/Mm/PageFault/Digits.antt =====
-- The tests of single bits in `vm_page_fault` of kernel/mm/vmm.c as binary digits.
-- A mask with one bit tests that binary digit.
use mathlib.Core.Path.{subst}
use monolith.Mm.PageFault.{denied, has_bit, prot_read, prot_write}
use monolith.Mm.VmSpace.{VmObject}
use monolith.Prelude.{
  ==_iff, Bool, Bool-cases, arith, bit_and, false, inl, inr, min, not, refl, true, ℕ, ◌&&◌, ◌+◌,
  ◌==◌, ◌^◌, ◌||◌, ◌↔◌, ◌≡◌, ◌≤◌,
}
use monolith.Prelude.Bits.{and_pow, bit, bit-and, bit-le, pow-pos}

has_bit-pow : (k w : ℕ) → has_bit w (2 ^ k) ≡ (bit w k == 1)
unfolding has_bit
has_bit-pow k w = ground (arith, and_pow k w, bit-le w k, pow-pos k)

pub digit_one : (k w : ℕ) → has_bit w (2 ^ k) ≡ true → bit w k ≡ 1
digit_one k w h = ground (arith, has_bit-pow k w, h)

pub digit_zero : (k w : ℕ) → has_bit w (2 ^ k) ≡ false → bit w k ≡ 0
digit_zero k w h = ground (arith, has_bit-pow k w, h, bit-le w k)

pub writable-has_bit : (w : ℕ) → bit w 1 ≡ 1 → has_bit w (prot_read + prot_write) ≡ true
unfolding has_bit
writable-has_bit w h = elim (Bool-cases (bit_and w 3 == 0)) [
  | inl z ↦
      let none_left : bit_and w 3 ≡ 0 = (==_iff (bit_and w 3) 0).0 z in
      let digits : bit 0 1 ≡ min (bit w 1) (bit 3 1) =
        subst (λ x. bit x 1 ≡ min (bit w 1) (bit 3 1)) none_left (bit-and w 3 1) in
      absurd (omega (arith, digits, h))
  | inr z ↦ rw z refl
]

pub zero_not-one : (n : ℕ) → n ≡ 0 → ¬ (n ≡ 1)
zero_not-one n z o = absurd (omega (arith, z, o))

pub one_not-zero : (n : ℕ) → n ≡ 1 → ¬ (n ≡ 0)
one_not-zero n o z = absurd (omega (arith, z, o))

or_false : (a b : Bool) → (a || b) ≡ false → (a ≡ false) × (b ≡ false)
or_false a b h = ground (arith, h)

digit_le :
    (k j w v : ℕ) → (has_bit w (2 ^ k) && not (has_bit v (2 ^ j))) ≡ false → bit w k ≤ bit v j
digit_le k j w v h = elim (Bool-cases (has_bit w (2 ^ k))) [
  | inr e ↦ omega (arith, digit_zero k w e)
  | inl e ↦ elim (Bool-cases (has_bit v (2 ^ j))) [
    | inl f ↦ omega (arith, digit_one j v f, bit-le w k)
    | inr f ↦ absurd (ground (arith, rw (e, f) at h))
  ]
]

lacking_digit :
    (k j w v : ℕ) → bit w k ≤ bit v j → (has_bit w (2 ^ k) && not (has_bit v (2 ^ j))) ≡ false
lacking_digit k j w v h = elim (Bool-cases (has_bit w (2 ^ k))) [
  | inr e ↦ rw e refl
  | inl e ↦
      let one : bit v j ≡ 1 = omega (arith, h, digit_one k w e, bit-le v j) in
      rw (e, has_bit-pow j v, one) refl
]

-- The test of the permissions, digit by digit.
pub denied_iff :
    (r : VmObject) (flags : ℕ)
    → (denied r flags ≡ false)
      ↔ ((bit flags 1 ≤ bit r.prot 1) × (bit flags 2 ≤ bit r.prot 3) × (bit flags 3 ≤ bit r.prot 2))
unfolding denied
denied_iff r flags = (
  λ h.
      let parts = or_false _ _ h in
      let others = or_false _ _ parts.1 in
      (
        digit_le 1 1 flags r.prot parts.0,
        digit_le 2 3 flags r.prot others.0,
        digit_le 3 2 flags r.prot others.1,
      ),
  λ a.
      rw
        (
          denied,
          lacking_digit 1 1 flags r.prot a.0,
          lacking_digit 2 3 flags r.prot a.1,
          lacking_digit 3 2 flags r.prot a.2,
        )
        refl,
)
