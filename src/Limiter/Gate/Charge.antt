-- ===== src/Limiter/Gate/Charge.antt =====
-- src/limiter/quota.rs: `admit_at` on the maps, and the usage rows that it writes.
use fareward.Common.{ℕ, Option, none, some, []}
use fareward.Common.Int.{ℤ, pos, pos_part, eqb_ℤ}
use fareward.Common.KeyMap.{get, put}
use fareward.Common.Result.{Result, ok, err}
use fareward.Limiter.Policy.{LimitPolicy, LimitViolation, Request}
use fareward.Limiter.TimeFrame.{daily, local_unix_day, month_start_day, five_minute}
use fareward.Limiter.Subject.{refresh_periods}
use fareward.Limiter.Budget.{refresh_month, refresh_day}
use fareward.Limiter.Admission.{
  Accounts, Decision, allowed, credit_violation, burst_violation, extra_payment, charge_accounts,
}
use fareward.Limiter.Usage.{UsageKey, UsageRecord, loaded, increment}
use fareward.Limiter.Access.{AccessDenial, AccessVerdict}
use fareward.Limiter.Gate.{
  same_subject, same_usage, ShardState, LimiterStore, not_initialized, bad_time, quota_failed,
  usage_failed, Call, ◌>>=◌, ◌>>◌, return, lift, modify, company_aggregate_user_id, authorize,
}
use fareward.Limiter.Gate.Load.{
  key_of, keep_subject, keep_budget, ensure_budget, ensure_subject, ensure_platform_usage,
  platform_usage_key,
}

-- The two states of subjects and the budget of a request.
unfoldable pub stored_accounts : Request → Call Accounts
unfolding get
stored_accounts request s =
    elim (get same_subject (pos request.company_id, company_aggregate_user_id) s.subjects) [
      | none ↦ (s, err not_initialized)
      | some c ↦ elim (get same_subject (pos request.company_id, pos request.user_id) s.subjects) [
        | none ↦ (s, err not_initialized)
        | some u ↦ elim (get eqb_ℤ (pos request.company_id) s.budgets) [
          | none ↦ (s, err not_initialized)
          | some b ↦ (s, ok (record { company_state = c; user_state = u; budget = b }))
        ]
      ]
    ]

abbrev pub keep_accounts : Request → Accounts → ShardState → ShardState
keep_accounts request a s = keep_budget (pos request.company_id) a.budget (
    keep_subject (pos request.company_id, pos request.user_id) a.user_state
      (keep_subject (pos request.company_id, company_aggregate_user_id) a.company_state s))

unfoldable pub day_extra_of : Request → Call ℕ
unfolding get
day_extra_of request s = elim (get eqb_ℤ (pos request.company_id) s.budgets) [
  | none ↦ (s, err not_initialized)
  | some b ↦ (s, ok b.day_extra_used)
]

abbrev pub row_or_empty : Option UsageRecord → UsageRecord
row_or_empty none = loaded []
row_or_empty (some u) = u

unfoldable pub increment_row : UsageKey → Request → Call (Unit {0})
unfolding increment get put
increment_row key request s =
    let (u, r) =
      increment request.route_id request.credits (row_or_empty (get same_usage key s.usage)) in
    lift usage_failed r (record s { usage = put same_usage key u s.usage })

-- The rows of the user and of the company, each for five minutes and for the day.
unfoldable pub increment_usage : Request → ℤ → Call (Unit {0})
unfolding five_minute daily increment_row
increment_usage request unix_seconds = do
  five ← lift bad_time (five_minute unix_seconds)
  day ← lift bad_time (daily unix_seconds)
  increment_row (key_of (pos request.company_id) (pos request.user_id) five) request
  increment_row (key_of (pos request.company_id) (pos request.user_id) day) request
  increment_row (key_of (pos request.company_id) company_aggregate_user_id five) request
  increment_row (key_of (pos request.company_id) company_aggregate_user_id day) request

unfoldable pub increment_platform_row : UsageKey → Request → Call (Unit {0})
unfolding increment get put
increment_platform_row key request s = elim (get same_usage key s.platform_usage) [
  | none ↦ (s, err not_initialized)
  | some row ↦
      let (u, r) = increment request.route_id request.credits row in
      lift usage_failed r (record s { platform_usage = put same_usage key u s.platform_usage })
]

unfoldable pub increment_platform_usage : Request → ℤ → Call (Unit {0})
unfolding platform_usage_key increment_platform_row
increment_platform_usage request unix_seconds = do
  key ← lift bad_time (platform_usage_key unix_seconds)
  increment_platform_row key request

module _ (store : LimiterStore) (policy : LimitPolicy) (request : Request) (unix_seconds : ℤ)
    (now : ℕ) where
  -- The charges of an accepted request. A failure keeps the charges before it.
  unfoldable pub post : ℕ → Accounts → Call Decision
  unfolding charge_accounts increment_usage increment_platform_usage
  post extra_cpu a = do
    let charged = charge_accounts request.credits extra_cpu a
    modify (keep_accounts request charged.0)
    lift quota_failed charged.1
    increment_usage request unix_seconds
    increment_platform_usage request unix_seconds
    return allowed

  unfoldable pub pay : ℕ → Accounts → Call Decision
  unfolding ensure_platform_usage post
  pay extra_cpu a = ensure_platform_usage store unix_seconds >> post extra_cpu a

  unfoldable pub judge : Accounts → Call Decision
  unfolding burst_violation extra_payment pay
  judge a = elim (burst_violation policy request.credits a) [
    | some v ↦ return (credit_violation v)
    | none ↦ elim (extra_payment policy request a) [
      | err v ↦ return (credit_violation v)
      | ok extra_cpu ↦ pay extra_cpu a
    ]
  ]

  abbrev pub refresh_subjects : ℕ → Accounts → Accounts
  refresh_subjects day a = record a {
    company_state = refresh_periods policy.company (pos_part unix_seconds) day now a.company_state;
    user_state = refresh_periods policy.user (pos_part unix_seconds) day now a.user_state;
  }

  abbrev pub refresh_budget : ℕ → ℕ → Accounts → Accounts
  refresh_budget day month a = record a { budget = refresh_day day (refresh_month month a.budget) }

  unfoldable pub ensure_states : Call (Unit {0})
  unfolding ensure_budget day_extra_of ensure_subject
  ensure_states = do
    ensure_budget store request.company_id unix_seconds
    extra ← day_extra_of request
    ensure_subject store (pos request.company_id) company_aggregate_user_id policy.company
        unix_seconds now extra
    ensure_subject store (pos request.company_id) (pos request.user_id) policy.user unix_seconds now
        extra

  unfoldable pub refresh_states : Call Accounts
  unfolding local_unix_day stored_accounts month_start_day
  refresh_states = do
    day ← lift bad_time (local_unix_day unix_seconds)
    a ← stored_accounts request
    modify (keep_accounts request (refresh_subjects day a))
    month ← lift bad_time (month_start_day unix_seconds)
    let refreshed = refresh_budget day month (refresh_subjects day a)
    modify (keep_accounts request refreshed)
    return refreshed

  unfoldable pub charge_request : Call Decision
  unfolding ensure_states refresh_states judge
  charge_request = (ensure_states >> refresh_states) >>= judge

-- `Decision` with what the authorization found.
pub data FullDecision : Type 0 where
  admitted : AccessVerdict → FullDecision
  violated : LimitViolation → FullDecision
  denied : AccessDenial → FullDecision

abbrev pub with_verdict : AccessVerdict → Decision → FullDecision
with_verdict v allowed = admitted v
with_verdict v (credit_violation violation) = violated violation

module _ (store : LimiterStore) (ttl : ℤ) (policy : LimitPolicy) where
  unfoldable pub continue : Request → ℤ → ℕ → Result AccessDenial AccessVerdict → Call FullDecision
  unfolding charge_request
  continue request unix_seconds now (err denial) = return (denied denial)
  continue request unix_seconds now (ok v) =
      charge_request store policy request unix_seconds now >>= λ d. return (with_verdict v d)

  unfoldable pub admit_at : Request → ℤ → ℕ → Call FullDecision
  unfolding authorize continue
  admit_at request unix_seconds now =
      authorize store ttl request unix_seconds >>= continue request unix_seconds now
