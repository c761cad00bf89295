-- ===== src/Tests/TimeFrames.antt =====
-- src/limiter/time_frame.rs: the keys of one time.
use fareward.Common.{◌*◌, ◌≡◌, refl, ◌+◌, arith}
use fareward.Common.Int.{pos, checked_i64, ◌+ℤ◌, ◌-ℤ◌}
use fareward.Common.Result.{ok}
use fareward.Limiter.TimeFrame.{
  daily, five_minute, hour_five_minute_range, local_unix_day, month_start_day,
}
use fareward.Limiter.TimeFrame.Calendar.{first_day}
use fareward.Limiter.TimeFrame.Months.{month_start_day-first_day}

daily_run : daily (pos (54_123 * 86_400 + 18_000)) ≡ ok 200_054_123
unfolding daily checked_i64 ◌+ℤ◌ ◌-ℤ◌
daily_run = refl

five_minute_run : five_minute (pos 7_500) ≡ ok 100_000_025
unfolding five_minute
five_minute_run = refl

hour_run : hour_five_minute_range (pos 7_500) ≡ ok (100_000_024, 100_000_035)
unfolding hour_five_minute_range
hour_run = refl

-- 2024-02-29 is the local day 19,782 of 1,709,200,000 seconds.
leap_day_local : local_unix_day (pos 1_709_200_000) ≡ ok 19_782
unfolding local_unix_day checked_i64 ◌+ℤ◌ ◌-ℤ◌
leap_day_local = refl

leap_day_month : month_start_day (pos 1_709_200_000) ≡ ok 19_754
unfolding month_start_day checked_i64 ◌+ℤ◌ ◌-ℤ◌
leap_day_month = refl

-- February 2024 is the month 649 of the calendar.
february : first_day 649 ≡ 19_754
unfolding first_day
february = refl

march : first_day 650 ≡ 19_783
unfolding first_day
march = refl

month_start_day-first_day_example : month_start_day (pos 1_709_200_000) ≡ ok (first_day 649)
month_start_day-first_day_example =
    month_start_day-first_day (pos 1_709_200_000) 19_782 649 leap_day_local
      (omega (arith, february)) (omega (arith, march)) (omega (arith, february))
