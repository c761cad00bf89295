-- ===== src/Limiter/Admission/Gates.antt =====
-- src/limiter/quota.rs: what it means that the gates of `admit_at` let a request through.
use fareward.Common.{
  ℕ, ◌+◌, ◌≤◌, ◌<◌, ◌≡◌, refl, true, false, not, ◌&&◌, ◌||◌, Option, none, some, ltb, ◌==◌, arith,
}
use fareward.Limiter.Credits.{Credits, u64_max}
use fareward.Limiter.Policy.{
  LimitPolicy, ScopeLimits, user_daily, company, user, day, month, LimitViolation, Request, exceeds,
  violation_of-none, Fits, u64_limits, fixed_limit_violation-none,
}
use fareward.Limiter.Subject.{SubjectState}
use fareward.Limiter.Subject.Gates.{Holds, hourly, violation-ten_seconds, violation-hour}
use fareward.Limiter.Budget.{CompanyBudgetState, extra_grant, monthly_violation}
use fareward.Limiter.Admission.{Accounts, or_else, burst_violation, quota_violation, pool_grant}

or_else-none : (a b : Option LimitViolation) → or_else a b ≡ none → (a ≡ none) × (b ≡ none)
or_else-none none b h = (refl, h)
or_else-none (some v) b h = cc

-- The buckets and the hour of a subject have room for a request.
abbrev pub HasBurst : ScopeLimits → Credits → SubjectState → Type 0
HasBurst limits requested s =
    Holds requested s
    × (Fits s.hour_used requested (hourly limits) × Fits s.hour_used requested u64_limits)

pub burst_violation-none :
    (policy : LimitPolicy) (requested : Credits) (a : Accounts)
    → burst_violation policy requested a ≡ none
    → HasBurst policy.company requested a.company_state
      × HasBurst policy.user requested a.user_state
unfolding burst_violation
burst_violation-none policy requested a h =
    let (c, h1) = or_else-none _ _ h in
    let (u, h2) = or_else-none _ _ h1 in
    let (ch, uh) = or_else-none _ _ h2 in
    (
      (
        violation-ten_seconds company policy.company requested a.company_state c,
        violation-hour company policy.company requested a.company_state ch,
      ),
      (
        violation-ten_seconds user policy.user requested a.user_state u,
        violation-hour user policy.user requested a.user_state uh,
      ),
    )

-- A resource that is asked for is granted in the running month, under the ceiling.
abbrev pub InMonth : CompanyBudgetState → (Credits → ℕ) → Credits → Type 0
InMonth b resource requested =
    0 < resource requested
    → (b.stored.budget_month_start_day ≡ b.usage_month_start_day)
      × (resource b.month_used + resource requested ≤ resource b.stored.monthly_ceiling)
      × (resource b.month_used + resource requested ≤ u64_max)

month_gate :
    (used requested ceiling start current : ℕ)
    → (ltb 0 requested && (not (start == current) || exceeds used requested ceiling)) ≡ false
    → 0 < requested
    → (start ≡ current) × (used + requested ≤ ceiling) × (used + requested ≤ u64_max)
unfolding exceeds
month_gate used requested ceiling start current h p = ground arith

pub monthly_violation-none :
    (requested : Credits) (b : CompanyBudgetState)
    → monthly_violation requested b ≡ none
    → InMonth b (λ c. c.cpu) requested × InMonth b (λ c. c.inference) requested
unfolding monthly_violation
monthly_violation-none requested b h =
    let (c, i) = violation_of-none company month _ _ h in
    (
      month_gate b.month_used.cpu requested.cpu b.stored.monthly_ceiling.cpu _ _ c,
      month_gate b.month_used.inference requested.inference b.stored.monthly_ceiling.inference _ _
          i,
    )

-- The day of the company and the share of the user have room for a request, and so does the month.
abbrev pub IsEntitled : LimitPolicy → Credits → Accounts → Type 0
IsEntitled policy requested a =
    (Fits a.company_state.day_used requested a.budget.stored.daily
      × Fits a.user_state.day_used requested (user_daily policy a.budget.stored.daily))
    × (InMonth a.budget (λ c. c.cpu) requested × InMonth a.budget (λ c. c.inference) requested)

pub quota_violation-none :
    (policy : LimitPolicy) (requested : Credits) (a : Accounts)
    → quota_violation policy requested a ≡ none
    → IsEntitled policy requested a
      × (Fits a.company_state.day_used requested u64_limits
          × Fits a.user_state.day_used requested u64_limits)
unfolding quota_violation
quota_violation-none policy requested a h =
    let (c, h1) = or_else-none _ _ h in
    let (u, mo) = or_else-none _ _ h1 in
    let (cd, cf) = fixed_limit_violation-none company day _ _ _ c in
    let (ud, uf) = fixed_limit_violation-none user day _ _ _ u in
    (((cd, ud), monthly_violation-none requested a.budget mo), (cf, uf))

-- The pool of the day may pay for a request, and has what it asks for.
abbrev pub IsPooled : LimitPolicy → Request → Accounts → Type 0
IsPooled policy request a =
    (request.extra_credits_allowed ≡ true)
    × (0 < request.credits.cpu)
    × (request.credits.inference ≡ 0)
    × (a.budget.day_extra_used + request.credits.cpu ≤ policy.company_extra_daily_cpu)
    × (a.budget.day_extra_used + request.credits.cpu ≤ u64_max)

pub pool_grant-some :
    (policy : LimitPolicy) (request : Request) (a : Accounts) (cpu : ℕ)
    → pool_grant policy request a ≡ some cpu
    → (cpu ≡ request.credits.cpu) × IsPooled policy request a
unfolding extra_grant
pool_grant-some policy request a cpu h = ground arith
