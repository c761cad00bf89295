-- ===== src/Limiter/TimeFrame.antt =====
-- src/limiter/time_frame.rs: the decimal keys of the periods that usage is kept by. A day is
-- counted in the business zone.
pub mod Frames
pub mod Calendar
pub mod Months
use fareward.Common.{
  ℕ, ◌+◌, ◌*◌, ◌/◌, ◌^◌, ◌-◌, ◌%◌, Bool, true, false, ◌&&◌, ◌||◌, not, Option, none, some, leb, ltb,
  if◌then◌else◌,
}
use fareward.Common.Int.{ℤ, pos, pos_part, ◌+ℤ◌, ◌-ℤ◌, ltb_ℤ, checked_i64}
use fareward.Common.Result.{Result, ok, err, ◌>>=◌, ok_or}

abbrev pub five_minute_prefix : ℕ
five_minute_prefix = 100_000_000

abbrev pub daily_prefix : ℕ
daily_prefix = 200_000_000

abbrev pub five_minute_seconds : ℕ
five_minute_seconds = 300

abbrev pub day_seconds : ℕ
day_seconds = 86_400

abbrev pub day_zone_offset_seconds : ℤ
day_zone_offset_seconds = pos 0 -ℤ pos 18_000

pub data TimeFrameError : Type 0 where
  negative_unix_time : TimeFrameError
  out_of_range : ℕ → TimeFrameError

unfoldable pub encode : ℕ → ℤ → ℕ → Result TimeFrameError ℕ
encode prefix unix_seconds divisor =
    if ltb_ℤ unix_seconds (pos 0)
    then err negative_unix_time
    else let encoded = prefix + pos_part unix_seconds / divisor in
      if leb (prefix + 100_000_000) encoded || ltb (2 ^ 31 - 1) encoded
      then err (out_of_range encoded)
      else ok encoded

unfoldable pub local_day_seconds : ℤ → Result TimeFrameError ℤ
local_day_seconds unix_seconds = elim (checked_i64 (unix_seconds +ℤ day_zone_offset_seconds)) [
  | none ↦ err negative_unix_time
  | some shifted ↦ if ltb_ℤ shifted (pos 0) then err negative_unix_time else ok shifted
]

unfoldable pub five_minute : ℤ → Result TimeFrameError ℕ
unfolding encode
five_minute unix_seconds = encode five_minute_prefix unix_seconds five_minute_seconds

unfoldable pub daily : ℤ → Result TimeFrameError ℕ
unfolding encode local_day_seconds
daily unix_seconds = do
  seconds ← local_day_seconds unix_seconds
  encode daily_prefix seconds day_seconds

unfoldable pub local_unix_day : ℤ → Result TimeFrameError ℕ
unfolding local_day_seconds
local_unix_day unix_seconds = do
  seconds ← local_day_seconds unix_seconds
  ok (pos_part seconds / day_seconds)

-- The day of the month, with the months counted from March, so that a leap day ends a year.
unfoldable pub day_of_month : ℕ → ℕ
day_of_month unix_day =
    let shifted_day = unix_day + 719_468 in
    let day_of_era = shifted_day % 146_097 in
    let year_of_era =
      (day_of_era - day_of_era / 1_460 + day_of_era / 36_524 - day_of_era / 146_096) / 365 in
    let day_of_year = day_of_era - (365 * year_of_era + year_of_era / 4 - year_of_era / 100) in
    let month_part = (5 * day_of_year + 2) / 153 in day_of_year - (153 * month_part + 2) / 5 + 1

-- The start of a month is never before the first day.
unfoldable pub month_start_day : ℤ → Result TimeFrameError ℕ
unfolding local_unix_day day_of_month
month_start_day unix_seconds = if ltb_ℤ unix_seconds (pos 0) then err negative_unix_time else do
  unix_day ← local_unix_day unix_seconds
  let start = unix_day + 1 - day_of_month unix_day
  if leb start (2 ^ 15 - 1) then ok start else err (out_of_range unix_day)

unfoldable pub hour_five_minute_range : ℤ → Result TimeFrameError (ℕ × ℕ)
unfolding five_minute
hour_five_minute_range unix_seconds =
    if ltb_ℤ unix_seconds (pos 0) then err negative_unix_time else do
      let hour_start = pos_part unix_seconds / 3_600 * 3_600
      first ← five_minute (pos hour_start)
      last ← five_minute (pos (hour_start + 3_599))
      ok (first, last)

unfoldable pub is_five_minute : ℕ → Bool
is_five_minute value = leb 100_000_000 value && ltb value 200_000_000

unfoldable pub is_daily : ℕ → Bool
is_daily value = leb 200_000_000 value && ltb value 300_000_000
