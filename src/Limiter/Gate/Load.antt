-- ===== src/Limiter/Gate/Load.antt =====
-- src/limiter/quota.rs: the states that a request needs, recovered from the database where they are
-- not in memory.
use fareward.Common.{ℕ, ◌+◌, ◌-◌, ◌^◌, Option, none, some, List, [], ◌∷◌, leb, if◌then◌else◌}
use fareward.Common.Int.{ℤ, pos, pos_part, eqb_ℤ}
use fareward.Common.KeyMap.{get, put, or_put}
use fareward.Common.Result.{Result, ok, err}
use fareward.Limiter.Credits.{Credits, RoutedCredits, zero_credits, checked_add}
use fareward.Limiter.Policy.{ScopeLimits}
use fareward.Limiter.Blob.{decode, sum}
use fareward.Limiter.TimeFrame.{
  TimeFrameError, out_of_range, daily, local_unix_day, month_start_day, hour_five_minute_range,
  five_minute, daily_prefix,
}
use fareward.Limiter.Subject.{SubjectState, recovered}
use fareward.Limiter.Budget.{CompanyBudgetState}
use fareward.Limiter.Usage.{UsageKey, UsageRecord, loaded}
use fareward.Limiter.Gate.{
  SubjectKey, same_subject, same_usage, ShardState, StoredExtraUsage, StoredBudgetRow, LimiterStore,
  recovered_overflow, bad_time, bad_blob, Call, ◌>>=◌, ◌>>◌, return, lift, answered, modify,
  company_aggregate_user_id, platform_aggregate_company_id,
}

abbrev pub key_of : ℤ → ℤ → ℕ → UsageKey
key_of company user frame = record { company_id = company; user_id = user; time_frame = pos frame }

-- A row in memory is never replaced.
abbrev pub merge_loaded :
    UsageKey → RoutedCredits → List (UsageKey × UsageRecord) → List (UsageKey × UsageRecord)
merge_loaded key routes = or_put same_usage key (loaded routes)

abbrev pub merge_usage : UsageKey → RoutedCredits → ShardState → ShardState
merge_usage key routes s = record s { usage = merge_loaded key routes s.usage }

abbrev pub merge_platform : UsageKey → RoutedCredits → ShardState → ShardState
merge_platform key routes s = record s { platform_usage = merge_loaded key routes s.platform_usage }

unfoldable pub decode_optional : Option (List ℕ) → Call RoutedCredits
unfolding decode
decode_optional none = return []
decode_optional (some bytes) = lift bad_blob (decode bytes)

unfoldable pub add_recovered : Credits → Credits → Call Credits
unfolding checked_add
add_recovered used more s = elim (checked_add used more) [
  | none ↦ (s, err recovered_overflow)
  | some total ↦ (s, ok total)
]

-- The loop over the rows of the hour.
unfoldable pub recover_hour : ℤ → ℤ → Credits → List (ℕ × List ℕ) → Call Credits
unfolding decode sum add_recovered or_put
recover_hour company user used [] = return used
recover_hour company user used ((frame, bytes) ∷ rows) = do
  routes ← lift bad_blob (decode bytes)
  more ← lift bad_blob (sum routes)
  total ← add_recovered used more
  modify (merge_usage (key_of company user frame) routes)
  recover_hour company user total rows

-- The loop over the daily rows of the month.
unfoldable pub recover_month : Credits → List (ℕ × List ℕ) → Call Credits
unfolding decode sum add_recovered
recover_month used [] = return used
recover_month used ((frame, bytes) ∷ rows) = do
  routes ← lift bad_blob (decode bytes)
  more ← lift bad_blob (sum routes)
  total ← add_recovered used more
  recover_month total rows

-- `saturating_sub` on the processor credits.
abbrev pub less_extra : ℕ → Credits → Credits
less_extra extra used = record used { cpu = used.cpu - extra }

abbrev pub keep_subject : SubjectKey → SubjectState → ShardState → ShardState
keep_subject key state s = record s { subjects = put same_subject key state s.subjects }

abbrev pub keep_budget : ℤ → CompanyBudgetState → ShardState → ShardState
keep_budget company state s = record s { budgets = put eqb_ℤ company state s.budgets }

unfoldable pub load_subject : LimiterStore → ℤ → ℤ → ScopeLimits → ℤ → ℕ → ℕ → Call (Unit {0})
unfolding decode_optional or_put sum recover_hour recovered put
load_subject store company user limits unix_seconds now extra = do
  frame ← lift bad_time (daily unix_seconds)
  row ← answered (store.load_exact (key_of company user frame))
  routes ← decode_optional row
  modify (merge_usage (key_of company user frame) routes)
  (first, last) ← lift bad_time (hour_five_minute_range unix_seconds)
  rows ← answered (store.load_range company user first last)
  hour_used ← recover_hour company user zero_credits rows
  day_used ← lift bad_blob (sum routes)
  day ← lift bad_time (local_unix_day unix_seconds)
  modify (
      keep_subject (company, user)
        (recovered limits (pos_part unix_seconds) day now hour_used (less_extra extra day_used)))

unfoldable pub ensure_subject : LimiterStore → ℤ → ℤ → ScopeLimits → ℤ → ℕ → ℕ → Call (Unit {0})
unfolding load_subject get
ensure_subject store company user limits unix_seconds now extra s =
    elim (get same_subject (company, user) s.subjects) [
      | some state ↦ (s, ok tt)
      | none ↦ load_subject store company user limits unix_seconds now extra s
    ]

-- `unwrap_or_default`
abbrev pub no_budget_row : StoredBudgetRow
no_budget_row = record {
  budget = record {
    company_id = 0;
    daily = zero_credits;
    budget_month_start_day = 0;
    monthly_ceiling = zero_credits;
    last_set = zero_credits;
    updated = pos 0;
  };
  extra = record { day_period = pos 0; day_cpu = 0; month_start_day = pos 0; month_cpu = 0 };
}

abbrev pub row_or_default : Option StoredBudgetRow → StoredBudgetRow
row_or_default none = no_budget_row
row_or_default (some row) = row

-- What the pool has paid in a period that is still the current one.
abbrev pub extra_of_day : ℕ → StoredExtraUsage → ℕ
extra_of_day day extra = if eqb_ℤ extra.day_period (pos day) then extra.day_cpu else 0

abbrev pub extra_of_month : ℕ → StoredExtraUsage → ℕ
extra_of_month month extra = if eqb_ℤ extra.month_start_day (pos month) then extra.month_cpu else 0

abbrev pub recovered_budget : ℕ → ℕ → ℕ → StoredBudgetRow → Credits → CompanyBudgetState
recovered_budget company day month row month_used = record {
  stored = record row.budget { company_id = company };
  usage_month_start_day = month;
  month_used = less_extra (extra_of_month month row.extra) month_used;
  extra_day_period = day;
  day_extra_used = extra_of_day day row.extra;
  month_extra_used = extra_of_month month row.extra;
  version = 0;
  flushed_version = 0;
}

-- A key of a day has to fit 32 bits.
unfoldable pub first_daily_frame : ℕ → Result TimeFrameError ℕ
first_daily_frame month =
    let frame = daily_prefix + month in
    if leb frame (2 ^ 31 - 1) then ok frame else err (out_of_range frame)

unfoldable pub load_budget : LimiterStore → ℕ → ℤ → Call (Unit {0})
unfolding month_start_day local_unix_day first_daily_frame recover_month put
load_budget store company unix_seconds = do
  month ← lift bad_time (month_start_day unix_seconds)
  day ← lift bad_time (local_unix_day unix_seconds)
  row ← answered (store.load_budget (pos company))
  first ← lift bad_time (first_daily_frame month)
  last ← lift bad_time (daily unix_seconds)
  rows ← answered (store.load_range (pos company) company_aggregate_user_id first last)
  month_used ← recover_month zero_credits rows
  modify (
      keep_budget (pos company)
        (recovered_budget company day month (row_or_default row) month_used))

unfoldable pub ensure_budget : LimiterStore → ℕ → ℤ → Call (Unit {0})
unfolding load_budget get
ensure_budget store company unix_seconds s = elim (get eqb_ℤ (pos company) s.budgets) [
  | some state ↦ (s, ok tt)
  | none ↦ load_budget store company unix_seconds s
]

unfoldable pub platform_usage_key : ℤ → Result TimeFrameError UsageKey
unfolding five_minute
platform_usage_key unix_seconds = elim (five_minute unix_seconds) [
  | err e ↦ err e
  | ok frame ↦ ok (key_of platform_aggregate_company_id company_aggregate_user_id frame)
]

unfoldable pub load_platform : LimiterStore → UsageKey → Call (Unit {0})
unfolding decode_optional or_put
load_platform store key = do
  row ← answered (store.load_exact key)
  routes ← decode_optional row
  modify (merge_platform key routes)

unfoldable pub ensure_platform_row : LimiterStore → UsageKey → Call (Unit {0})
unfolding load_platform get
ensure_platform_row store key s = elim (get same_usage key s.platform_usage) [
  | some r ↦ (s, ok tt)
  | none ↦ load_platform store key s
]

unfoldable pub ensure_platform_usage : LimiterStore → ℤ → Call (Unit {0})
unfolding platform_usage_key ensure_platform_row
ensure_platform_usage store unix_seconds = do
  key ← lift bad_time (platform_usage_key unix_seconds)
  ensure_platform_row store key
