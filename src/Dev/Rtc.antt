-- ===== src/Dev/Rtc.antt =====
-- kernel/dev/rtc.c: the time of day from the clock chip, as seconds since 1970. The registers are read
-- when no update is in progress: their values are arguments.
pub mod Calendar
pub mod NextDay
mod Tests
use monolith.Prelude.{
  Bool, List, Option, [], get_or, if◌then◌else◌, leb, ltb, none, not, some, suc, zero, ℕ, ◌%◌, ◌&&◌,
  ◌*◌, ◌+◌, ◌-◌, ◌/◌, ◌==◌, ◌^◌, ◌||◌, ◌∷◌,
}
use monolith.Prelude.Words.{u16_mod, u32_mod, u64_mod}

-- `bcd_to_bin`, on bytes
unfoldable pub bcd_to_bin : ℕ → ℕ
bcd_to_bin bcd = (bcd / 16 * 10 + bcd % 16) % 256

unfoldable pub is_leap_year : ℕ → Bool
is_leap_year y = (y % 4 == 0) && (not (y % 100 == 0) || (y % 400 == 0))

abbrev pub days_per_month : List ℕ
days_per_month = 31 ∷ 28 ∷ 31 ∷ 30 ∷ 31 ∷ 30 ∷ 31 ∷ 31 ∷ 30 ∷ 31 ∷ 30 ∷ 31 ∷ []

-- the registers, in the order in which they are read
pub record Registers : Type 0 where
  pub seconds : ℕ
  pub minutes : ℕ
  pub hours : ℕ
  pub day : ℕ
  pub month : ℕ
  pub year : ℕ
  pub century : Option ℕ

-- the 16-bit `r_year`
unfoldable pub full_year : Registers → ℕ
unfolding bcd_to_bin
full_year r =
    let year = bcd_to_bin r.year in
    elim r.century [
      | some c ↦ (bcd_to_bin c * 100 + year) % u16_mod
      | none ↦ if leb 70 year then 1900 + year else 2000 + year
    ]

-- the loop over the months `m` to `m + k - 1`
unfoldable pub month_loop : ℕ → ℕ → ℕ → ℕ
unfolding is_leap_year
month_loop r_year m zero = 0
month_loop r_year m (suc k) =
    let days = if (m == 2) && is_leap_year r_year then 29 else get_or days_per_month (m - 1) 0 in
    days + month_loop r_year (m + 1) k

-- `int` arithmetic, whose overflow is taken to wrap, widened to 64 bits: a 64-bit pattern
abbrev pub widen32 : ℕ → ℕ
widen32 n = let low = n % u32_mod in if ltb low (2 ^ 31) then low else low + (u64_mod - u32_mod)

-- `(r_year - 69) / 4`, which rounds towards zero, as a 32-bit pattern
abbrev pub leap_quotient : ℕ → ℕ
leap_quotient r = if leb 69 r then (r - 69) / 4 else u32_mod - (69 - r) / 4

-- the part of the sum that is computed with `int`, as a 64-bit pattern
unfoldable pub year_seconds : ℕ → ℕ
year_seconds r = widen32 (
    (r + 299) / 400 * 86400
    + (u32_mod - (r - 1) / 100) * 86400
    + leap_quotient r * 86400
    + (r + u32_mod - 70) * 31536000)

-- The end of `rtc_read`, on the values decoded, as a 64-bit pattern. A month from 14 on makes the C
-- read beyond its table; that is outside the model.
unfoldable pub epoch_of : ℕ → ℕ → ℕ → ℕ → ℕ → ℕ → ℕ
unfolding month_loop year_seconds
epoch_of year month day hours minutes seconds =
    let y_day = month_loop year 1 (month - 1) + day + u64_mod - 1 in
    (year_seconds ((year + u16_mod - 1900) % u16_mod)
      + y_day * 86400
      + hours * 3600
      + minutes * 60
      + seconds)
    % u64_mod

-- `rtc_read`
unfoldable pub rtc_read : Registers → ℕ
unfolding full_year epoch_of bcd_to_bin
rtc_read r =
    epoch_of (full_year r) (bcd_to_bin r.month) (bcd_to_bin r.day) (bcd_to_bin r.hours)
      (bcd_to_bin r.minutes) (bcd_to_bin r.seconds)
