-- ===== src/Limiter/Budget.antt =====
-- src/limiter/quota.rs: `CompanyBudgetState`, what a company may use and has used of it.
use fareward.Common.{ℕ, ◌&&◌, ◌||◌, not, Option, none, some, leb, ltb, ◌==◌, if◌then◌else◌}
use fareward.Common.Int.{ℤ}
use fareward.Common.Result.{ok, err}
use fareward.Limiter.Credits.{Credits, zero_credits, checked_add, checked_add_u64}
use fareward.Limiter.Policy.{company, month, LimitViolation, exceeds, violation_of}
use fareward.Limiter.Subject.{
  Outcome, month_overflow, extra_day_overflow, extra_month_overflow, version_overflow,
}

-- `StoredBudget` of src/limiter/storage.rs
pub record StoredBudget : Type 0 where
  pub company_id : ℕ
  pub daily : Credits
  pub budget_month_start_day : ℕ
  pub monthly_ceiling : Credits
  pub last_set : Credits
  pub updated : ℤ

pub record CompanyBudgetState : Type 0 where
  pub stored : StoredBudget
  pub usage_month_start_day : ℕ
  pub month_used : Credits
  pub extra_day_period : ℕ
  pub day_extra_used : ℕ
  pub month_extra_used : ℕ
  pub version : ℕ
  pub flushed_version : ℕ

unfoldable pub refresh_month : ℕ → CompanyBudgetState → CompanyBudgetState
refresh_month current b = if b.usage_month_start_day == current then b else record b {
  usage_month_start_day = current;
  month_used = zero_credits;
  month_extra_used = 0;
}

unfoldable pub refresh_day : ℕ → CompanyBudgetState → CompanyBudgetState
refresh_day current b =
    if b.extra_day_period == current
    then b
    else record b { extra_day_period = current; day_extra_used = 0 }

unfoldable pub extra_grant : Credits → ℕ → CompanyBudgetState → Option ℕ
extra_grant requested pool b =
    if pool == 0 || ltb 0 requested.inference || requested.cpu == 0
    then none
    else elim (checked_add_u64 b.day_extra_used requested.cpu) [
      | none ↦ none
      | some total ↦ if leb total pool then some requested.cpu else none
    ]

-- The version counts the changes.
unfoldable pub bump_version : CompanyBudgetState → CompanyBudgetState × Outcome
bump_version b = elim (checked_add_u64 b.version 1) [
  | none ↦ (b, err version_overflow)
  | some version ↦ (record b { version = version }, ok tt)
]

unfoldable pub add_extra_month : ℕ → CompanyBudgetState → CompanyBudgetState × Outcome
unfolding bump_version
add_extra_month cpu b = elim (checked_add_u64 b.month_extra_used cpu) [
  | none ↦ (b, err extra_month_overflow)
  | some used ↦ bump_version (record b { month_extra_used = used })
]

unfoldable pub add_extra_used : ℕ → CompanyBudgetState → CompanyBudgetState × Outcome
unfolding add_extra_month
add_extra_used cpu b = elim (checked_add_u64 b.day_extra_used cpu) [
  | none ↦ (b, err extra_day_overflow)
  | some used ↦ add_extra_month cpu (record b { day_extra_used = used })
]

unfoldable pub add_month_used : Credits → CompanyBudgetState → CompanyBudgetState × Outcome
unfolding checked_add bump_version
add_month_used credits b = elim (checked_add b.month_used credits) [
  | none ↦ (b, err month_overflow)
  | some used ↦ bump_version (record b { month_used = used })
]

unfoldable pub mark_usage_flushed : ℕ → CompanyBudgetState → CompanyBudgetState
mark_usage_flushed version b =
    if b.version == version then record b { flushed_version = version } else b

unfoldable pub monthly_violation : Credits → CompanyBudgetState → Option LimitViolation
unfolding exceeds
monthly_violation requested b =
    let active = b.stored.budget_month_start_day == b.usage_month_start_day in
    violation_of company month
      (ltb 0 requested.cpu
        && (not active || exceeds b.month_used.cpu requested.cpu b.stored.monthly_ceiling.cpu))
      (ltb 0 requested.inference
        && (not active
            || exceeds b.month_used.inference requested.inference
                b.stored.monthly_ceiling.inference))
