-- ===== src/Limiter/TimeFrame/Frames.antt =====
-- src/limiter/time_frame.rs: the keys of a time and of the hour and the day around it.
use fareward.Common.{ℕ, ◌+◌, ◌*◌, ◌/◌, ◌≤◌, ◌<◌, ◌≡◌, refl, true, false, arith}
use fareward.Common.Int.{ℤ, pos, pos_part}
use fareward.Common.Result.{ok, >>=-eq-ok}
use fareward.Limiter.TimeFrame.{
  five_minute_prefix, five_minute_seconds, daily_prefix, day_seconds, encode, local_day_seconds,
  five_minute, daily, local_unix_day, hour_five_minute_range, is_five_minute, is_daily,
}

encode-ok :
    (prefix : ℕ) (seconds : ℤ) (divisor frame : ℕ)
    → encode prefix seconds divisor ≡ ok frame
    → (frame ≡ prefix + pos_part seconds / divisor) × (frame < prefix + 100_000_000)
unfolding encode
encode-ok prefix seconds divisor frame h = ground arith

-- The key of a day is a daily key, and its digits after the prefix are the local business day that
-- the quotas of the day are counted by.
pub daily-local_unix_day :
    (seconds : ℤ) (frame : ℕ)
    → daily seconds ≡ ok frame
    → (today : ℕ) × (local_unix_day seconds ≡ ok today)
      × (frame ≡ daily_prefix + today)
      × (is_daily frame ≡ true)
      × (is_five_minute frame ≡ false)
unfolding daily local_unix_day is_daily is_five_minute
daily-local_unix_day seconds frame h =
    let (shifted, e, k) = >>=-eq-ok (local_day_seconds seconds) _ h in
    let (same, low) = encode-ok daily_prefix shifted day_seconds frame k in
    (pos_part shifted / day_seconds, rw e refl, same, ground arith, ground arith)

five_minute-ok :
    (seconds : ℤ) (frame : ℕ)
    → five_minute seconds ≡ ok frame
    → (frame ≡ five_minute_prefix + pos_part seconds / five_minute_seconds)
      × (frame < five_minute_prefix + 100_000_000)
unfolding five_minute
five_minute-ok seconds frame h = encode-ok five_minute_prefix seconds five_minute_seconds frame h

hour_five_minute_range-ok :
    (seconds : ℤ) (first last : ℕ)
    → hour_five_minute_range seconds ≡ ok (first, last)
    → let hour_start = pos_part seconds / 3_600 * 3_600 in
      (five_minute (pos hour_start) ≡ ok first) × (five_minute (pos (hour_start + 3_599)) ≡ ok last)
unfolding hour_five_minute_range
hour_five_minute_range-ok seconds first last h = ground arith

-- The key of five minutes lies among the twelve keys of its hour.
pub five_minute-hour :
    (seconds : ℤ) (frame first last : ℕ)
    → five_minute seconds ≡ ok frame
    → hour_five_minute_range seconds ≡ ok (first, last)
    → (first ≤ frame)
      × (frame ≤ last)
      × (last ≡ first + 11)
      × (is_five_minute frame ≡ true)
      × (is_daily frame ≡ false)
unfolding is_five_minute is_daily
five_minute-hour seconds frame first last h r =
    let start = pos_part seconds / 3_600 * 3_600 in
    let (f, l) = hour_five_minute_range-ok seconds first last r in
    let (at, low) = five_minute-ok seconds frame h in
    let a = (five_minute-ok (pos start) first f).0 in
    let b = (five_minute-ok (pos (start + 3_599)) last l).0 in
    (omega (arith, at, a), omega (arith, at, b), omega (arith, a, b), ground arith, ground arith)
