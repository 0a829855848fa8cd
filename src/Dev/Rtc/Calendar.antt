-- ===== src/Dev/Rtc/Calendar.antt =====
-- The date arithmetic of kernel/dev/rtc.c against the calendar, given by the day that follows a day.
use mathlib.Core.Path.{subst}
use monolith.Dev.Rtc.{
  Registers, days_per_month, epoch_of, is_leap_year, month_loop, rtc_read, year_seconds,
}
use monolith.Prelude.{
  Bool, Bool-cases, ap, arith, get_or, if◌then◌else◌, inl, inr, ltb, none, refl, some, suc, zero, ℕ,
  ◌%◌, ◌&&◌, ◌*◌, ◌+◌, ◌-◌, ◌/◌, ◌<◌, ◌==◌, ◌||◌, ◌≡◌, ◌≤◌,
}
use monolith.Prelude.Words.{u16_mod}

-- how long a month is: 30 days hath September
unfoldable pub month_length : ℕ → ℕ → ℕ
month_length y m =
    if m == 2
    then (if is_leap_year y then 29 else 28)
    else if (m == 4) || (m == 6) || (m == 9) || (m == 11)
    then 30
    else 31

pub record Date : Type 0 where
  pub y : ℕ
  pub m : ℕ
  pub d : ℕ

-- a day from 1970 to 2038
pub record IsDate (t : Date) : Type 0 where
  pub years : (1970 ≤ t.y) × (t.y ≤ 2038)
  pub months : (1 ≤ t.m) × (t.m ≤ 12)
  pub days : (1 ≤ t.d) × (t.d ≤ month_length t.y t.m)

unfoldable pub next_day : Date → Date
unfolding month_length
next_day t =
    if ltb t.d (month_length t.y t.m)
    then record t { d = t.d + 1 }
    else if ltb t.m 12
    then record t { m = t.m + 1; d = 1 }
    else record { y = t.y + 1; m = 1; d = 1 }

-- the table of the C, and its exception, against the rule
table_length :
    (y j : ℕ)
    → j < 12
    → (if (j + 1 == 2) && is_leap_year y then 29 else get_or days_per_month j 0)
      ≡ month_length y (j + 1)
unfolding month_length
table_length y zero h = refl
table_length y (suc zero) h = refl
table_length y (suc (suc zero)) h = refl
table_length y (suc (suc (suc zero))) h = refl
table_length y (suc (suc (suc (suc zero)))) h = refl
table_length y (suc (suc (suc (suc (suc zero))))) h = refl
table_length y (suc (suc (suc (suc (suc (suc zero)))))) h = refl
table_length y (suc (suc (suc (suc (suc (suc (suc zero))))))) h = refl
table_length y (suc (suc (suc (suc (suc (suc (suc (suc zero)))))))) h = refl
table_length y (suc (suc (suc (suc (suc (suc (suc (suc (suc zero))))))))) h = refl
table_length y (suc (suc (suc (suc (suc (suc (suc (suc (suc (suc zero)))))))))) h = refl
table_length y (suc (suc (suc (suc (suc (suc (suc (suc (suc (suc (suc zero))))))))))) h = refl
table_length y (suc (suc (suc (suc (suc (suc (suc (suc (suc (suc (suc (suc j)))))))))))) h =
    absurd (omega arith)

table_at :
    (y m : ℕ)
    → 1 ≤ m
    → m ≤ 12
    → (if (m == 2) && is_leap_year y then 29 else get_or days_per_month (m - 1) 0)
      ≡ month_length y m
table_at y m h l =
    let e : m - 1 + 1 ≡ m = omega arith in
    subst
      (λ n.
        (if (n == 2) && is_leap_year y then 29 else get_or days_per_month (m - 1) 0)
        ≡ month_length y n)
      e (table_length y (m - 1) (omega arith))

-- the C's loop adds the length of one month a round
pub month_loop-snoc :
    (y m k : ℕ)
    → 1 ≤ m
    → m + k ≤ 12
    → month_loop y m (suc k) ≡ month_loop y m k + month_length y (m + k)
unfolding month_loop
month_loop-snoc y m zero h l =
    let e : m + 0 ≡ m = omega arith in
    omega (arith, table_at y m h (omega arith), ap (month_length y) e)
month_loop-snoc y m (suc k) h l =
    let e : m + 1 + k ≡ m + suc k = omega arith in
    omega (arith, month_loop-snoc y (m + 1) k (omega arith) (omega arith), ap (month_length y) e)

pub year_length : (y : ℕ) → month_loop y 1 12 ≡ (if is_leap_year y then 366 else 365)
unfolding month_loop
year_length y = elim (Bool-cases (is_leap_year y)) [ inl e ↦ rw e refl | inr e ↦ rw e refl ]

-- the sum, where it does not overflow
year_seconds-exact :
    (r : ℕ) → 70 ≤ r → r ≤ 138 → year_seconds r ≡ (r - 69) / 4 * 86400 + (r - 70) * 31536000
unfolding year_seconds
year_seconds-exact r h l = ground arith

pub leap-four : (y : ℕ) → 1970 ≤ y → y ≤ 2038 → is_leap_year y ≡ (y % 4 == 0)
unfolding is_leap_year
leap-four y h l = ground arith

pub month_length-le : (y m : ℕ) → month_length y m ≤ 31
unfolding month_length
month_length-le y m = ground arith

months-le : (y k : ℕ) → k ≤ 12 → month_loop y 1 k ≤ 31 * k
unfolding month_loop
months-le y zero h = omega arith
months-le y (suc k) h = omega (
  arith,
  month_loop-snoc y 1 k (omega arith) (omega arith),
  months-le y k (omega arith),
  month_length-le y (1 + k),
)

-- the seconds of a day that do not overflow
abbrev pub exact_seconds : Date → ℕ → ℕ
exact_seconds t time =
    (t.y - 1969) / 4 * 86400
    + (t.y - 1970) * 31536000
    + (month_loop t.y 1 (t.m - 1) + t.d - 1) * 86400
    + time

-- the date and the time of day, as the end of `rtc_read` takes them
abbrev pub read_at : Date → ℕ → ℕ → ℕ → ℕ
read_at t hours minutes seconds = epoch_of t.y t.m t.d hours minutes seconds

-- a number below 100 in binary coded decimal
abbrev pub to_bcd : ℕ → ℕ
to_bcd n = n / 10 * 16 + n % 10

-- the clock's registers at a date and a time of day, where the century may have no register
abbrev pub registers_of : Bool → Date → ℕ → ℕ → ℕ → Registers
registers_of has_century t hours minutes seconds = record {
  seconds = to_bcd seconds;
  minutes = to_bcd minutes;
  hours = to_bcd hours;
  day = to_bcd t.d;
  month = to_bcd t.m;
  year = to_bcd (t.y % 100);
  century = if has_century then some (to_bcd (t.y / 100)) else none;
}

abbrev pub clock_at : Bool → Date → ℕ → ℕ → ℕ → ℕ
clock_at has_century t hours minutes seconds =
    rtc_read (registers_of has_century t hours minutes seconds)

module _ (hours minutes seconds : ℕ) (h : hours < 24) (mi : minutes < 60) (s : seconds < 60) where
  pub read_at-exact :
      (t : Date)
      → IsDate t
      → read_at t hours minutes seconds ≡ exact_seconds t (hours * 3600 + minutes * 60 + seconds)
  unfolding epoch_of
  read_at-exact t v =
      let r : (t.y + u16_mod - 1900) % u16_mod ≡ t.y - 1900 = omega (arith, v.years) in
      rw r (
        rw (year_seconds-exact (t.y - 1900) (omega (arith, v.years)) (omega (arith, v.years))) (
          omega (
            arith,
            months-le t.y (t.m - 1) (omega (arith, v.months)),
            month_length-le t.y t.m,
            v.years,
            v.days,
          )))
