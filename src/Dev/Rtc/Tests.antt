-- ===== src/Dev/Rtc/Tests.antt =====
-- Times of the clock of kernel/dev/rtc.c, and its theorems at them.
use monolith.Dev.Rtc.{Registers, is_leap_year, rtc_read, year_seconds}
use monolith.Dev.Rtc.Calendar.{Date, IsDate, clock_at, month_length, next_day}
use monolith.Dev.Rtc.NextDay.{rtc_read-next_day, year_seconds-overflows}
use monolith.Prelude.{arith, false, none, refl, ◌*◌, ◌+◌, ◌-◌, ◌/◌, ◌^◌, ◌≡◌, ◌≤◌}
use monolith.Prelude.Words.{u32_mod, u64_mod}

-- 2024-02-29 12:30:45, in binary coded decimal
abbrev leap_day : Registers
leap_day = record {
  seconds = 0x45;
  minutes = 0x30;
  hours = 0x12;
  day = 0x29;
  month = 0x02;
  year = 0x24;
  century = none;
}

read_runs : rtc_read leap_day ≡ 1709209845
unfolding rtc_read
read_runs = refl

-- the same day in the year 2039
read_2039 :
    rtc_read (record leap_day { year = 0x39; day = 0x01; month = 0x01 })
    ≡ u64_mod - u32_mod + 2177497845
unfolding rtc_read
read_2039 = refl

abbrev leap_date : Date
leap_date = record { y = 2024; m = 2; d = 29 }

leap_date-IsDate : IsDate leap_date
unfolding month_length is_leap_year
leap_date-IsDate = record {
  years = (omega arith, omega arith);
  months = (omega arith, omega arith);
  days = (omega arith, omega arith);
}

rtc_read-next_day_example :
    (clock_at false (record { y = 1970; m = 1; d = 1 }) 0 0 0 ≡ 0)
    × (clock_at false leap_date 12 30 45
        ≡ clock_at false leap_date 0 0 0 + 12 * 3600 + 30 * 60 + 45)
    × (clock_at false (next_day leap_date) 12 30 45 ≡ clock_at false leap_date 12 30 45 + 86400)
unfolding next_day month_length is_leap_year
rtc_read-next_day_example =
    rtc_read-next_day false leap_date 12 30 45 leap_date-IsDate
      (record {
        years = (omega arith, omega arith);
        months = (omega arith, omega arith);
        days = (omega arith, omega arith);
      })
      (omega arith) (omega arith) (omega arith)

year_seconds-overflows_runs :
    (year_seconds 139 + u32_mod ≡ u64_mod + 70 / 4 * 86400 + 69 * 31536000)
    × (2 ^ 63 ≤ year_seconds 139)
year_seconds-overflows_runs = year_seconds-overflows 139 (omega arith) (omega arith)
