-- ===== src/Limiter/Admission.antt =====
-- src/limiter/quota.rs: what `admit_at` decides and charges, from the refresh of the periods on,
-- for the two subjects and the budget of one request.
pub mod Gates
pub mod Branches
pub mod Company
pub mod Day
pub mod Free
pub mod Total
use fareward.Common.{ℕ, ◌≡◌, Bool, true, false, not, Option, none, some, ltb, if◌then◌else◌}
use fareward.Common.Result.{Result, ok, err}
use fareward.Limiter.Credits.{Credits}
use fareward.Limiter.Policy.{
  LimitPolicy, user_daily, Scope, company, user, ten_seconds, hour, day, LimitViolation, Request,
  fixed_limit_violation,
}
use fareward.Limiter.Subject.{QuotaError, Outcome, SubjectState, refresh_periods, violation, charge}
use fareward.Limiter.Budget.{
  CompanyBudgetState, refresh_month, refresh_day, extra_grant, add_extra_used, add_month_used,
  monthly_violation,
}

-- The states that a request reads and changes, of its company and its user.
pub record Accounts : Type 0 where
  pub company_state : SubjectState
  pub user_state : SubjectState
  pub budget : CompanyBudgetState

-- The time of a request: seconds, nanoseconds, and the local day and month they fall in.
pub record Clock : Type 0 where
  pub unix_seconds : ℕ
  pub now : ℕ
  pub day_period : ℕ
  pub month_start_day : ℕ

pub data Decision : Type 0 where
  allowed : Decision
  credit_violation : LimitViolation → Decision

unfoldable pub refresh : LimitPolicy → Clock → Accounts → Accounts
unfolding refresh_periods refresh_month refresh_day
refresh policy c a = record {
  company_state = refresh_periods policy.company c.unix_seconds c.day_period c.now a.company_state;
  user_state = refresh_periods policy.user c.unix_seconds c.day_period c.now a.user_state;
  budget = refresh_day c.day_period (refresh_month c.month_start_day a.budget);
}

abbrev pub or_else : Option LimitViolation → Option LimitViolation → Option LimitViolation
or_else none other = other
or_else (some v) other = some v

-- The windows of ten seconds and of the hour, the company first.
unfoldable pub burst_violation : LimitPolicy → Credits → Accounts → Option LimitViolation
unfolding violation
burst_violation policy requested a =
    or_else (violation company ten_seconds policy.company requested a.company_state) (
      or_else (violation user ten_seconds policy.user requested a.user_state) (
        or_else (violation company hour policy.company requested a.company_state)
          (violation user hour policy.user requested a.user_state)))

-- The entitlement: the day of the company, the share of the user, and the month.
unfoldable pub quota_violation : LimitPolicy → Credits → Accounts → Option LimitViolation
unfolding fixed_limit_violation monthly_violation
quota_violation policy requested a =
    or_else
      (fixed_limit_violation company day a.company_state.day_used requested a.budget.stored.daily)
      (or_else
        (fixed_limit_violation user day a.user_state.day_used requested
          (user_daily policy a.budget.stored.daily))
        (monthly_violation requested a.budget))

abbrev pub pool_grant : LimitPolicy → Request → Accounts → Option ℕ
pool_grant policy request a =
    if request.extra_credits_allowed
    then extra_grant request.credits policy.company_extra_daily_cpu a.budget
    else none

-- What the pool of the day has to pay, zero where the entitlement does, or the refusal.
unfoldable pub extra_payment : LimitPolicy → Request → Accounts → Result LimitViolation ℕ
unfolding quota_violation extra_grant
extra_payment policy request a = elim (quota_violation policy request.credits a) [
  | none ↦ ok 0
  | some v ↦ elim (pool_grant policy request a) [ none ↦ err v | some cpu ↦ ok cpu ]
]

unfoldable pub charge_budget : Credits → ℕ → Accounts → Accounts × Outcome
unfolding add_extra_used add_month_used
charge_budget requested extra_cpu a =
    let (b, r) =
      if ltb 0 extra_cpu
      then add_extra_used extra_cpu a.budget
      else add_month_used requested a.budget in
    (record a { budget = b }, r)

unfoldable pub charge_user : Credits → ℕ → Accounts → Accounts × Outcome
unfolding charge charge_budget
charge_user requested extra_cpu a =
    let (s, r) = charge requested (not (ltb 0 extra_cpu)) a.user_state in
    elim r [
      | err e ↦ (record a { user_state = s }, err e)
      | ok _ ↦ charge_budget requested extra_cpu (record a { user_state = s })
    ]

unfoldable pub charge_accounts : Credits → ℕ → Accounts → Accounts × Outcome
unfolding charge charge_user
charge_accounts requested extra_cpu a =
    let (s, r) = charge requested (not (ltb 0 extra_cpu)) a.company_state in
    elim r [
      | err e ↦ (record a { company_state = s }, err e)
      | ok _ ↦ charge_user requested extra_cpu (record a { company_state = s })
    ]

abbrev pub Admitted : Type 0
Admitted = Accounts × Result QuotaError Decision

-- The request is charged, and answered with what the charge comes to.
unfoldable pub settle : Credits → ℕ → Accounts → Admitted
unfolding charge_accounts
settle requested extra_cpu a =
    let (a', r) = charge_accounts requested extra_cpu a in
    (a', elim r [ err e ↦ err e | ok _ ↦ ok allowed ])

unfoldable pub decide : LimitPolicy → Request → Accounts → Admitted
unfolding burst_violation extra_payment settle
decide policy request a = elim (burst_violation policy request.credits a) [
  | some v ↦ (a, ok (credit_violation v))
  | none ↦ elim (extra_payment policy request a) [
    | err v ↦ (a, ok (credit_violation v))
    | ok extra_cpu ↦ settle request.credits extra_cpu a
  ]
]

unfoldable pub admit : LimitPolicy → Clock → Request → Accounts → Admitted
unfolding refresh decide
admit policy c request a = decide policy request (refresh policy c a)
