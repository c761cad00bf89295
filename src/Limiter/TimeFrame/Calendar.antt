-- ===== src/Limiter/TimeFrame/Calendar.antt =====
-- The Gregorian calendar, counted in months from January 1970: the description that the start of a
-- month is compared with.
use fareward.Common.{
  ℕ, zero, suc, ◌+◌, ◌-◌, ◌*◌, ◌/◌, ◌%◌, ◌^◌, ◌≤◌, ◌<◌, ◌≡◌, refl, Bool, true, ◌&&◌, ◌||◌, not,
  ◌==◌, if◌then◌else◌, arith, Bool-cases, inl, inr, ==_iff, ap, subst,
}
use fareward.Limiter.TimeFrame.{day_of_month}

unfoldable pub is_leap : ℕ → Bool
is_leap year = year % 4 == 0 && (not (year % 100 == 0) || year % 400 == 0)

-- January is the month 0.
unfoldable pub days_in_month : ℕ → ℕ → ℕ
unfolding is_leap
days_in_month year month =
    if month == 1
    then if is_leap year then 29 else 28
    else if month == 3 || month == 5 || month == 8 || month == 10
    then 30
    else 31

unfoldable pub month_days : ℕ → ℕ
unfolding days_in_month
month_days n = days_in_month (1970 + n / 12) (n % 12)

-- The unix day on which a month starts.
unfoldable pub first_day : ℕ → ℕ
unfolding month_days
first_day zero = 0
first_day (suc n) = first_day n + month_days n

-- The last days of as many months have the length of their month as their day of the month.
unfoldable agree : ℕ → ℕ → ℕ → Bool
unfolding month_days day_of_month
agree zero n first = true
agree (suc fuel) n first =
    let next = first + month_days n in
    (day_of_month (next - 1) == month_days n) && agree fuel (suc n) next

agree_run : agree 1_172 0 0 ≡ true
unfolding agree
agree_run = refl

and_parts : (a b : Bool) → a && b ≡ true → (a ≡ true) × (b ≡ true)
and_parts a b h = ground (arith, h)

agree-suc :
    (fuel n first : ℕ)
    → agree (suc fuel) n first ≡ true
    → (day_of_month (first + month_days n - 1) ≡ month_days n)
      × (agree fuel (suc n) (first + month_days n) ≡ true)
unfolding agree
agree-suc fuel n first h = let (now, later) = and_parts _ _ h in ((==_iff _ _).0 now, later)

agree-day_of_month :
    (fuel n first m : ℕ)
    → agree fuel n first ≡ true
    → first ≡ first_day n
    → n ≤ m
    → m < n + fuel
    → day_of_month (first_day m + month_days m - 1) ≡ month_days m
unfolding first_day
agree-day_of_month zero n first m h e a b = absurd (omega (arith, a, b))
agree-day_of_month (suc fuel) n first m h e a b = elim (Bool-cases (n == m)) [
  | inl same ↦
      let here : n ≡ m = (==_iff n m).0 same in
      subst (λ k. day_of_month (first_day k + month_days k - 1) ≡ month_days k) here
        (subst (λ f. day_of_month (f + month_days n - 1) ≡ month_days n) e
          (agree-suc fuel n first h).0)
  | inr other ↦
      agree-day_of_month fuel (suc n) (first + month_days n) m (agree-suc fuel n first h).1
        (ap (λ f. f + month_days n) e) (ground (arith, other, a)) (omega (arith, b))
]

month_days_bounds : (n : ℕ) → (28 ≤ month_days n) × (month_days n ≤ 31)
unfolding month_days
month_days_bounds n = ground arith

first_day_bounds : (n : ℕ) → n * 28 ≤ first_day n
unfolding first_day
first_day_bounds zero = omega arith
first_day_bounds (suc n) = omega (arith, first_day_bounds n, month_days_bounds n)

-- The last day of a month that starts on one of the days that 15 bits can hold.
pub last_day_of_month :
    (n : ℕ)
    → first_day n < 2 ^ 15
    → day_of_month (first_day (suc n) - 1) ≡ first_day (suc n) - first_day n
unfolding first_day
last_day_of_month n h =
    let last =
      agree-day_of_month 1_172 0 0 n agree_run refl (omega arith)
        (omega (arith, first_day_bounds n, h)) in
    omega (arith, last)
