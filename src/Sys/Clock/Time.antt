-- ===== src/Sys/Clock/Time.antt =====
-- Waiting and the time of day in kernel/sys/clock.c.
use monolith.Prelude.{
  Bool, Bool-cases, List, [], arith, false, inl, inr, length, ltb, refl, some, suc, true, zero, ℕ,
  ◌%◌, ◌*◌, ◌+◌, ◌-◌, ◌/◌, ◌<◌, ◌==◌, ◌∷◌, ◌≡◌, ◌≢◌, ◌≤◌,
}
use monolith.Prelude.Errno.{efault, einval, err, ok}
use monolith.Prelude.Words.{u64_mod}
use monolith.Sys.Clock.{clock_wait, sys_clock_gettime, wait_loop}

-- reading number `i` of a clock that moves on by at least one nanosecond from reading to reading
abbrev pub Ticks : ℕ → List ℕ → Type 0
Ticks from [] = Unit {0}
Ticks from (now ∷ rest) = (from ≤ now) × Ticks (from + 1) rest

-- the number of readings, and that the last of them is the first that has reached the target
abbrev pub StopsAt : ℕ → ℕ → List ℕ → Type 0
StopsAt target zero readings = ⊥
StopsAt target (suc n) [] = ⊥
StopsAt target (suc zero) (now ∷ rest) = target ≤ now
StopsAt target (suc (suc n)) (now ∷ rest) = (now < target) × StopsAt target (suc n) rest

wait_loop-StopsAt :
    (target from : ℕ) (readings : List ℕ)
    → Ticks from readings
    → from ≤ target
    → target < from + length readings
    → (n : ℕ) × (wait_loop target readings ≡ some (suc n)) × StopsAt target (suc n) readings
unfolding wait_loop
wait_loop-StopsAt target from [] t low h = absurd (omega arith)
wait_loop-StopsAt target from (now ∷ rest) t low h = elim (Bool-cases (ltb now target)) [
  | inl e ↦
      let before : now < target = ground (arith, e) in
      let (n, run, stop) =
        wait_loop-StopsAt target (from + 1) rest t.1 (omega (arith, t.0)) (omega arith) in
      (suc n, rw (e, run) refl, (before, stop))
  | inr e ↦ (0, rw e refl, ground (arith, e))
]

-- On a clock that moves on by at least a nanosecond from one reading to the next, `clock_wait` ends:
-- it stops at the first reading that has reached the target, within as many readings as there are
-- nanoseconds to wait, and one.
pub clock_wait-StopsAt :
    (nanos start : ℕ) (readings : List ℕ)
    → 0 < nanos
    → start + nanos < u64_mod
    → Ticks start readings
    → nanos < length readings
    → (n : ℕ) × (clock_wait nanos start readings ≡ some (suc n))
      × StopsAt (start + nanos) (suc n) readings
unfolding clock_wait
clock_wait-StopsAt nanos start readings pos small t long =
    let (n, run, stop) =
      wait_loop-StopsAt (start + nanos) start readings t (omega arith) (omega arith) in
    let nonzero : (nanos == 0) ≡ false = ground arith in
    let target : (start + nanos) % u64_mod ≡ start + nanos = omega arith in
    (n, rw nonzero (rw target run), stop)

-- `sys_clock_gettime` serves the real-time clock alone, and wants a valid pointer. What it stores is
-- the time since boot in full: nanoseconds below a second, and with the seconds, less the time of
-- boot, the nanoseconds since boot.
pub gettime-exact :
    (clock uptime boot_time : ℕ) (valid : Bool)
    → uptime / 1000000000 + boot_time < u64_mod
    → (clock ≢ 0 → sys_clock_gettime clock valid uptime boot_time ≡ err einval)
      × (clock ≡ 0 → valid ≡ false → sys_clock_gettime clock valid uptime boot_time ≡ err efault)
      × (clock ≡ 0
          → valid ≡ true
          → (sec nsec : ℕ) × (sys_clock_gettime clock valid uptime boot_time ≡ ok (sec, nsec))
            × (nsec < 1000000000)
            × ((sec - boot_time) * 1000000000 + nsec ≡ uptime))
unfolding sys_clock_gettime
gettime-exact clock uptime boot_time valid h = (
  λ c. ground (arith, c),
  λ c v. ground (arith, c, v),
  λ c v. (
    uptime / 1000000000 + boot_time,
    uptime % 1000000000,
    ground (arith, c, v),
    omega arith,
    omega arith,
  ),
)
