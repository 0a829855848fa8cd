-- ===== src/Dev/Rtc/NextDay.antt =====
-- The seconds of kernel/dev/rtc.c from one day to the next.
use monolith.Dev.Rtc.{
  bcd_to_bin, epoch_of, full_year, is_leap_year, month_loop, rtc_read, year_seconds,
}
use monolith.Dev.Rtc.Calendar.{
  Date, IsDate, clock_at, exact_seconds, leap-four, month_length, month_length-le, month_loop-snoc,
  next_day, read_at, read_at-exact, registers_of, to_bcd, year_length,
}
use monolith.Prelude.{
  ==_iff, Bool, Bool-cases, ap, arith, false, inl, inr, ltb, ne_of_==, refl, suc, sym, true, ℕ, ◌%◌,
  ◌*◌, ◌+◌, ◌-◌, ◌/◌, ◌<◌, ◌^◌, ◌∙◌, ◌≡◌, ◌≢◌, ◌≤◌,
}
use monolith.Prelude.Words.{u32_mod, u64_mod}

within_month :
    (t : Date) (time : ℕ)
    → IsDate t
    → exact_seconds (record t { d = t.d + 1 }) time ≡ exact_seconds t time + 86400
within_month t time v = omega (arith, v.days)

next_month :
    (t : Date) (time : ℕ)
    → IsDate t
    → t.d ≡ month_length t.y t.m
    → t.m < 12
    → exact_seconds (record t { m = t.m + 1; d = 1 }) time ≡ exact_seconds t time + 86400
next_month t time v e h =
    let k : t.m + 1 - 1 ≡ suc (t.m - 1) = omega (arith, v.months) in
    let up : 1 + (t.m - 1) ≡ t.m = omega (arith, v.months) in
    rw k (
      omega (
        arith,
        v.days,
        e,
        month_loop-snoc t.y 1 (t.m - 1) (omega arith) (omega (arith, v.months)),
        ap (month_length t.y) up,
      ))

december : (y : ℕ) → month_length y 12 ≡ 31
unfolding month_length
december y = refl

next_year :
    (t : Date) (time : ℕ)
    → IsDate t
    → t.d ≡ month_length t.y t.m
    → t.m ≡ 12
    → exact_seconds (record { y = t.y + 1; m = 1; d = 1 }) time ≡ exact_seconds t time + 86400
unfolding month_loop
next_year t time v e h =
    let k : t.m - 1 ≡ 11 = omega arith in
    let last : t.d ≡ 31 = e ∙ ap (month_length t.y) h ∙ december t.y in
    let whole =
      month_loop-snoc t.y 1 11 (omega arith) (omega arith)
      ∙ ap (λ n. month_loop t.y 1 11 + n) (december t.y) in
    let leap = leap-four t.y v.years.0 v.years.1 in
    rw k (elim (Bool-cases (is_leap_year t.y)) [
      | inl b ↦
          let long : month_loop t.y 1 11 + 31 ≡ 366 = sym whole ∙ year_length t.y ∙ rw b refl in
          let four : t.y % 4 ≡ 0 = (==_iff (t.y % 4) 0).0 (sym leap ∙ b) in
          omega (arith, long, four, last, v.years)
      | inr b ↦
          let short : month_loop t.y 1 11 + 31 ≡ 365 = sym whole ∙ year_length t.y ∙ rw b refl in
          let four : t.y % 4 ≢ 0 = ne_of_== (t.y % 4) 0 (sym leap ∙ b) in
          omega (arith, short, four, last, v.years)
    ])

exact-next_day :
    (t : Date) (time : ℕ)
    → IsDate t
    → exact_seconds (next_day t) time ≡ exact_seconds t time + 86400
unfolding next_day
exact-next_day t time v = elim (Bool-cases (ltb t.d (month_length t.y t.m))) [
  | inl a ↦ rw (next_day, a) (within_month t time v)
  | inr a ↦
      let e : t.d ≡ month_length t.y t.m = ground (arith, a, v.days) in
      elim (Bool-cases (ltb t.m 12)) [
        | inl b ↦ rw (next_day, a, b) (next_month t time v e (ground (arith, b)))
        | inr b ↦ rw (next_day, a, b) (next_year t time v e (ground (arith, b, v.months)))
      ]
]

bcd_to_bin-to_bcd : (n : ℕ) → n < 100 → bcd_to_bin (to_bcd n) ≡ n
unfolding bcd_to_bin
bcd_to_bin-to_bcd n h = omega arith

-- The registers give the year, with a register for the century and without one.
full_year-registers_of :
    (has_century : Bool) (t : Date) (hours minutes seconds : ℕ)
    → IsDate t
    → full_year (registers_of has_century t hours minutes seconds) ≡ t.y
unfolding full_year
full_year-registers_of true t hours minutes seconds v =
    let c = bcd_to_bin-to_bcd (t.y / 100) (omega (arith, v.years)) in
    let y = bcd_to_bin-to_bcd (t.y % 100) (omega arith) in rw (c, y) (omega (arith, v.years))
full_year-registers_of false t hours minutes seconds v =
    let y = bcd_to_bin-to_bcd (t.y % 100) (omega arith) in rw y (ground (arith, v.years))

-- `rtc_read` of those registers has the date and the time of day that they were made from.
rtc_read-registers_of :
    (has_century : Bool) (t : Date) (hours minutes seconds : ℕ)
    → IsDate t
    → hours < 24
    → minutes < 60
    → seconds < 60
    → clock_at has_century t hours minutes seconds ≡ read_at t hours minutes seconds
unfolding rtc_read
rtc_read-registers_of has_century t hours minutes seconds v h mi s =
    let small = month_length-le t.y t.m in
    rw
      (
        rtc_read,
        full_year-registers_of has_century t hours minutes seconds v,
        bcd_to_bin-to_bcd t.m (omega (arith, v.months)),
        bcd_to_bin-to_bcd t.d (omega (arith, v.days, small)),
        bcd_to_bin-to_bcd hours (omega arith),
        bcd_to_bin-to_bcd minutes (omega arith),
        bcd_to_bin-to_bcd seconds (omega arith),
      )
      refl

epoch_start : IsDate (record { y = 1970; m = 1; d = 1 })
unfolding month_length
epoch_start = record {
  years = (omega arith, omega arith);
  months = (omega arith, omega arith);
  days = (omega arith, omega arith);
}

-- `rtc_read` of registers that hold a date from 1970 to 2038 and a time of day in binary coded
-- decimal, with a register for the century or without one: the first second of 1970 is 0; on each
-- day the seconds from midnight are counted; and from a day to the next one in the calendar, at the
-- same time of day, 86400 seconds are counted.
pub rtc_read-next_day :
    (has_century : Bool) (t : Date) (hours minutes seconds : ℕ)
    → IsDate t
    → IsDate (next_day t)
    → hours < 24
    → minutes < 60
    → seconds < 60
    → (clock_at has_century (record { y = 1970; m = 1; d = 1 }) 0 0 0 ≡ 0)
      × (clock_at has_century t hours minutes seconds
          ≡ clock_at has_century t 0 0 0 + hours * 3600 + minutes * 60 + seconds)
      × (clock_at has_century (next_day t) hours minutes seconds
          ≡ clock_at has_century t hours minutes seconds + 86400)
unfolding epoch_of
rtc_read-next_day has_century t hours minutes seconds v v' h mi s =
    let zero_lt : 0 < 24 = omega arith in
    let zero_lt60 : 0 < 60 = omega arith in
    let time : ℕ = hours * 3600 + minutes * 60 + seconds in
    let now =
      rtc_read-registers_of has_century t hours minutes seconds v h mi s
      ∙ read_at-exact hours minutes seconds h mi s t v in
    let later =
      rtc_read-registers_of has_century (next_day t) hours minutes seconds v' h mi s
      ∙ read_at-exact hours minutes seconds h mi s (next_day t) v' in
    let midnight =
      rtc_read-registers_of has_century t 0 0 0 v zero_lt zero_lt60 zero_lt60
      ∙ read_at-exact 0 0 0 zero_lt zero_lt60 zero_lt60 t v in
    (
      rtc_read-registers_of has_century (record { y = 1970; m = 1; d = 1 }) 0 0 0 epoch_start
          zero_lt zero_lt60 zero_lt60,
      now ∙ sym (ap (λ (n : ℕ). n + hours * 3600 + minutes * 60 + seconds) midnight ∙ omega arith),
      later ∙ exact-next_day t time v ∙ sym (ap (λ (n : ℕ). n + 86400) now),
    )

-- From 2039 to 2100 the sum overflows an `int`: the clock is 2^32 seconds slow, before 1970.
pub year_seconds-overflows :
    (r : ℕ)
    → 139 ≤ r
    → r ≤ 200
    → (year_seconds r + u32_mod ≡ u64_mod + (r - 69) / 4 * 86400 + (r - 70) * 31536000)
      × (2 ^ 63 ≤ year_seconds r)
unfolding year_seconds
year_seconds-overflows r h l = ground arith
