-- ===== src/Prelude/Ctz.antt =====
-- Count trailing zeros, as kernel/mm/pmm.c and kernel/sched/signal.c use it: the lowest set bit of a
-- word that is not zero.
use native.Mathlib.Nat.{pow-suc}
use monolith.Prelude.{
  ==_iff, Bool-cases, arith, if◌then◌else◌, inl, inr, suc, zero, ℕ, ◌%◌, ◌/◌, ◌<◌, ◌==◌, ◌^◌, ◌≡◌,
  ◌≢◌,
}
use monolith.Prelude.Bits.{bit}

-- `__builtin_ctz` and `__builtin_ctzll` on a word of at most `n` bits
unfoldable pub ctz : ℕ → ℕ → ℕ
ctz zero w = 0
ctz (suc n) w = if w % 2 == 0 then suc (ctz n (w / 2)) else 0

pub ctz-lt : (n w : ℕ) → w < 2 ^ n → w ≢ 0 → ctz n w < n
unfolding ctz
ctz-lt zero w h ne = absurd (ne (omega arith))
ctz-lt (suc n) w h ne = elim (Bool-cases (w % 2 == 0)) [
  | inl e ↦ rw e (
      omega (
        arith,
        (==_iff (w % 2) 0).0 e,
        ctz-lt n (w / 2) (omega (arith, pow-suc 2 n))
            (λ z. ne (omega (arith, (==_iff (w % 2) 0).0 e))),
      ))
  | inr e ↦ rw e (omega arith)
]

-- The bit that it names is set, and those below it are clear.
pub ctz-lowest :
    (n w : ℕ) → w < 2 ^ n → w ≢ 0 → (bit w (ctz n w) ≡ 1) × ((k : ℕ) → k < ctz n w → bit w k ≡ 0)
unfolding ctz
ctz-lowest zero w h ne = absurd (ne (omega arith))
ctz-lowest (suc n) w h ne = elim (Bool-cases (w % 2 == 0)) [
  | inl e ↦
      let even : w % 2 ≡ 0 = (==_iff (w % 2) 0).0 e in
      let rest = ctz-lowest n (w / 2) (omega (arith, pow-suc 2 n)) (λ z. ne (omega arith)) in
      rw e (rest.0, elim [ zero ↦ λ _. even | suc k ↦ λ h. rest.1 k (omega arith) ])
  | inr e ↦ rw e (ground arith, λ k hk. absurd (omega arith))
]
