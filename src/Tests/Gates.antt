-- ===== src/Tests/Gates.antt =====
-- src/limiter/quota.rs: requests at the maps of the limiter, with databases that answer simply.
use fareward.Common.{ℕ, ◌≡◌, refl, inl, false, none, some, [], ◌∷◌}
use fareward.Common.Int.{pos, checked_i64, ◌+ℤ◌, ◌-ℤ◌}
use fareward.Common.KeyMap.{get}
use fareward.Common.Result.{ok, err}
use fareward.Limiter.Credits.{zero_credits}
use fareward.Limiter.Policy.{LimitPolicy, ScopeLimits, Request, daily_share}
use fareward.Limiter.TimeFrame.{local_unix_day, month_start_day}
use fareward.Limiter.Subject.{SubjectState, recovered, refresh_periods}
use fareward.Limiter.Bucket.{refill}
use fareward.Limiter.Budget.{refresh_day, refresh_month}
use fareward.Limiter.Usage.{loaded}
use fareward.Limiter.Access.{front_word, no_access, verdict, UserAccessState}
use fareward.Limiter.Admission.{Accounts, allowed, admit}
use fareward.Limiter.Gate.{
  ◌>>=◌, ShardState, LimiterStore, authorize, invalidate_access, same_subject,
}
use fareward.Limiter.Gate.Charge.{admit_at, denied, charge_request, keep_accounts}
use fareward.Limiter.Gate.Refusals.{SameCharges, admit_at-denied}
use fareward.Limiter.Gate.Revocation.{judge_row, authorize-invalidate_access}
use fareward.Limiter.Gate.Warm.{Warm, keep_accounts-Warm, charge_request-admit}
use fareward.Limiter.Gate.Load.{no_budget_row}

abbrev limits : ScopeLimits
limits = record {
  cpu = record { ten_seconds = 100; hour = 200 };
  inference = record { ten_seconds = 100; hour = 200 };
}

abbrev policy : LimitPolicy
policy = record {
  company = limits;
  user = limits;
  company_extra_daily_cpu = 15;
  user_daily_share_pct = 50;
}

-- A budget for a day of 1970, no usage, and one user with the access 8.
abbrev store : LimiterStore
store = record {
  load_exact = λ key. some none;
  load_range = λ company user first last. some [];
  load_budget = λ company. some (
      some (record no_budget_row {
        budget = record no_budget_row.budget {
          daily = record { cpu = 40; inference = 10 };
          monthly_ceiling = record { cpu = 1000; inference = 1000 };
        };
      }));
  load_user_access = λ company user.
      some (some (record { grants_blob = 0x00 ∷ 0x23 ∷ []; sub_grants_blob = []; status = pos 1 }));
}

abbrev cold : ShardState
cold = record { subjects = []; budgets = []; usage = []; access = []; platform_usage = [] }

abbrev asking : ℕ → Request
asking access = record {
  company_id = 7;
  user_id = 3;
  route_id = 1;
  credits = record { cpu = 12; inference = 0 };
  required_access = access ∷ 0 ∷ 0 ∷ 0 ∷ [];
  extra_credits_allowed = false;
}

denied_run :
    (admit_at store (pos 60) policy (asking 0x29) (pos 36_000) 0 cold).1 ≡ ok (denied no_access)
unfolding admit_at ◌>>=◌ front_word
denied_run = refl

admit_at-denied_example :
    let after = (admit_at store (pos 60) policy (asking 0x29) (pos 36_000) 0 cold).0 in
    SameCharges cold after
    × ((a : UserAccessState) × (get same_subject (pos 7, pos 3) after.access ≡ some a)
        × (verdict a (0x29 ∷ 0 ∷ 0 ∷ 0 ∷ []) ≡ err no_access))
admit_at-denied_example =
    admit_at-denied store (pos 60) policy (asking 0x29) (pos 36_000) 0 cold no_access denied_run

authorize-invalidate_access_example :
    (authorize store (pos 60) (asking 0x22) (pos 36_000) (invalidate_access (pos 7) (pos 0) cold)).1
    ≡ judge_row (pos 36_000) (asking 0x22) (store.load_user_access (pos 7) (pos 3))
authorize-invalidate_access_example =
    authorize-invalidate_access store (pos 60) (asking 0x22) (pos 36_000) (pos 0) cold (inl refl)
      refl

unfoldable subject : SubjectState
unfolding recovered
subject = recovered limits 36_000 0 0 zero_credits zero_credits

unfoldable accounts : Accounts
accounts = record {
  company_state = subject;
  user_state = subject;
  budget = record {
    stored = record {
      company_id = 7;
      daily = record { cpu = 40; inference = 10 };
      budget_month_start_day = 0;
      monthly_ceiling = record { cpu = 1000; inference = 1000 };
      last_set = zero_credits;
      updated = pos 0;
    };
    usage_month_start_day = 0;
    month_used = zero_credits;
    extra_day_period = 0;
    day_extra_used = 0;
    month_extra_used = 0;
    version = 0;
    flushed_version = 0;
  };
}

abbrev warm : ShardState
warm = keep_accounts (asking 0x22) accounts cold

warm_day : local_unix_day (pos 36_000) ≡ ok 0
unfolding local_unix_day checked_i64 ◌+ℤ◌ ◌-ℤ◌
warm_day = refl

warm_month : month_start_day (pos 36_000) ≡ ok 0
unfolding month_start_day checked_i64 ◌+ℤ◌ ◌-ℤ◌
warm_month = refl

warm_run : (charge_request store policy (asking 0x22) (pos 36_000) 0 warm).1 ≡ ok allowed
unfolding charge_request subject accounts ◌>>=◌ checked_i64 ◌+ℤ◌ ◌-ℤ◌ refresh_periods refill
    refresh_day refresh_month daily_share loaded
warm_run = refl

charge_request-admit_example :
    let out = charge_request store policy (asking 0x22) (pos 36_000) 0 warm in
    let expected =
      admit policy
        (record { unix_seconds = 36_000; now = 0; day_period = 0; month_start_day = 0 })
        (asking 0x22)
        accounts in
    (expected.1 ≡ ok allowed) × Warm (asking 0x22) out.0 expected.0
charge_request-admit_example =
    charge_request-admit store policy (asking 0x22) (pos 36_000) 0 warm accounts 0 0 allowed
      (keep_accounts-Warm (asking 0x22) cold accounts) warm_day warm_month warm_run
