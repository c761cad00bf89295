-- ===== src/Limiter/TimeFrame/Months.antt =====
-- src/limiter/time_frame.rs: the start of the month of a day.
use fareward.Common.{
  ℕ, zero, suc, subst, Bool-cases, leb, ◌^◌, ◌+◌, ◌-◌, ◌≤◌, ◌<◌, ◌≡◌, ◌⊎◌, inl, inr, refl, true,
  false, arith,
}
use fareward.Common.Int.{ℤ, pos, ltb_ℤ, ◌+ℤ◌, checked_i64-cases, +ℤ_parts, -ℤ_parts}
use fareward.Common.Result.{ok}
use fareward.Limiter.TimeFrame.Calendar.{first_day, last_day_of_month}
use fareward.Limiter.TimeFrame.{
  day_zone_offset_seconds, day_of_month, local_unix_day, month_start_day,
}

next_day : (d : ℕ) → (day_of_month (d + 1) ≡ day_of_month d + 1) ⊎ (day_of_month (d + 1) ≡ 1)
unfolding day_of_month
next_day d = ground arith

-- The days of a month are counted up from one, back from a later day of it.
counted_back : (k d : ℕ) → k < day_of_month d → k ≤ d → day_of_month (d - k) + k ≡ day_of_month d
counted_back zero d h b =
    let same : d ≡ d - 0 = omega arith in
    subst (λ e. day_of_month e + 0 ≡ day_of_month d) same (omega arith)
counted_back (suc k) d h b =
    let one_later : d - suc k + 1 ≡ d - k = omega (arith, b) in
    let step =
      subst (λ e. (day_of_month e ≡ day_of_month (d - suc k) + 1) ⊎ (day_of_month e ≡ 1)) one_later
        (next_day (d - suc k)) in
    ground (arith, step, counted_back k d (omega (arith, h)) (omega (arith, b)), h)

-- A day of a month of the calendar is the day of the month that its distance from the start gives.
day_of_month-first_day :
    (d n : ℕ)
    → first_day n ≤ d
    → d < first_day (suc n)
    → first_day n < 2 ^ 15
    → day_of_month d ≡ d - first_day n + 1
day_of_month-first_day d n a b fits =
    let last = first_day (suc n) - 1 in
    let same : last - (last - d) ≡ d = omega (arith, b) in
    let ends = last_day_of_month n fits in
    let back =
      subst (λ e. day_of_month e + (last - d) ≡ day_of_month last) same
        (counted_back (last - d) last (omega (arith, a, b, ends)) (omega arith)) in
    omega (arith, a, b, ends, back)

not_before : (t : ℤ) (d : ℕ) → local_unix_day t ≡ ok d → ltb_ℤ t (pos 0) ≡ false
unfolding local_unix_day
not_before t d h = elim (checked_i64-cases (t +ℤ day_zone_offset_seconds)) [
  | inl out ↦ absurd (ground (arith, out, h))
  | inr (within, _) ↦ elim (Bool-cases (ltb_ℤ (t +ℤ day_zone_offset_seconds) (pos 0))) [
    | inl past ↦ absurd (ground (arith, within, past, h))
    | inr later ↦
        ground (arith, later, +ℤ_parts t day_zone_offset_seconds, -ℤ_parts (pos 0) (pos 18_000))
  ]
]

-- Where the local day of a time lies in a month of the Gregorian calendar, the day on which that month
-- began is answered, if 15 bits hold it.
pub month_start_day-first_day :
    (t : ℤ) (d n : ℕ)
    → local_unix_day t ≡ ok d
    → first_day n ≤ d
    → d < first_day (suc n)
    → first_day n < 2 ^ 15
    → month_start_day t ≡ ok (first_day n)
unfolding month_start_day
month_start_day-first_day t d n h a b fits =
    let start : d + 1 - day_of_month d ≡ first_day n =
      omega (arith, day_of_month-first_day d n a b fits, a) in
    let held : leb (first_day n) (2 ^ 15 - 1) ≡ true = ground (arith, fits) in
    rw (month_start_day, not_before t d h, h, start, held) refl
