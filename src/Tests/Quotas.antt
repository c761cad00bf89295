-- ===== src/Tests/Quotas.antt =====
-- src/limiter/quota.rs: a company with two users, and the theorems about its limits.
use fareward.Common.{Bool, ℕ, ◌+◌, ◌≡◌, ◌≤◌, ◌*◌, refl, [], ◌∷◌, List, true, arith}
use fareward.Common.Result.{ok}
use fareward.Common.Int.{pos}
use fareward.Limiter.Credits.{zero_credits}
use fareward.Limiter.Policy.{LimitPolicy, ScopeLimits, Request, daily_share}
use fareward.Limiter.Bucket.{TokenBucket}
use fareward.Limiter.Bucket
use fareward.Limiter.Bucket.Rate.{Ask, serve, serve-rate}
use fareward.Limiter.Subject.{SubjectState, recovered}
use fareward.Limiter.Admission.Free.{day_refusal, decide-zero}
use fareward.Limiter.Admission.{Accounts, decide, credit_violation, Clock, admit}
use fareward.Limiter.Admission.Branches.{Branch, decide-Branch}
use fareward.Limiter.Admission.Company.{Company, serve_all, accounts_of}
use fareward.Limiter.Admission.Total.{serve_all-daily}

abbrev asks : List Ask
asks =
    record { time = 0; credits = 3 }
    ∷ record { time = 1_000_000_000; credits = 9 }
    ∷ record { time = 5_000_000_000; credits = 8 }
    ∷ []

serve-rate_example : (serve 10 (Bucket.full 10 0) asks).1 * 10_000_000_000 ≤ 150_000_000_000
unfolding serve
serve-rate_example =
    serve-rate 10 (Bucket.full 10 0) asks (omega arith, (omega arith, (omega arith, tt)))

abbrev limits : ScopeLimits
limits = record {
  cpu = record { ten_seconds = 100; hour = 200 };
  inference = record { ten_seconds = 100; hour = 200 };
}

abbrev policy : LimitPolicy
policy = record {
  company = limits;
  user = limits;
  company_extra_daily_cpu = 15;
  user_daily_share_pct = 50;
}

unfoldable subject : SubjectState
unfolding recovered
subject = recovered limits 36_000 0 0 zero_credits zero_credits

abbrev start : Company
start = record {
  company_state = subject;
  users = λ k. subject;
  budget = record {
    stored = record {
      company_id = 7;
      daily = record { cpu = 40; inference = 10 };
      budget_month_start_day = 0;
      monthly_ceiling = record { cpu = 1000; inference = 1000 };
      last_set = zero_credits;
      updated = pos 0;
    };
    usage_month_start_day = 0;
    month_used = zero_credits;
    extra_day_period = 0;
    day_extra_used = 0;
    month_extra_used = 0;
    version = 0;
    flushed_version = 0;
  };
}

abbrev clock : Clock
clock = record { unix_seconds = 36_000; now = 0; day_period = 0; month_start_day = 0 }

abbrev asking : ℕ → ℕ → Request
asking user cpu = record {
  company_id = 7;
  user_id = user;
  route_id = 1;
  credits = record { cpu = cpu; inference = 0 };
  required_access = 0 ∷ 0 ∷ 0 ∷ 0 ∷ [];
  extra_credits_allowed = true;
}

-- The last request is paid by the pool.
abbrev requests : List (Clock × Request)
requests =
    (clock, asking 1 20) ∷ (clock, asking 2 15) ∷ (clock, asking 1 10) ∷ (clock, asking 2 9) ∷ []

serve_all_run : (serve_all policy requests start).1 ≡ record { cpu = 45; inference = 0 }
unfolding serve_all subject admit Bucket.refill daily_share
serve_all_run = refl

serve_all-daily_example : (serve_all policy requests start).1.cpu + 0 ≤ 55
unfolding subject
serve_all-daily_example =
    (serve_all-daily policy 0 requests start (refl, (refl, (refl, (refl, tt))))
      (record {
        day = refl;
        extra_day = refl;
        cpu_within = omega arith;
        inference_within = omega arith;
        extra_within = omega arith;
        version_room = omega arith;
        extra_room = omega arith;
        month_cpu = omega arith;
        month_inference = omega arith;
      })).0

decide-Branch_example : Branch policy (asking 1 20) (accounts_of 1 start)
decide-Branch_example =
    decide-Branch policy (asking 1 20) (accounts_of 1 start)
      (omega arith, omega arith, omega arith, omega arith)

-- The entitlement was lowered to 5 after 20 credits of it were used.
abbrev lowered : Accounts
lowered = record {
  company_state = record subject { day_used = record { cpu = 20; inference = 0 } };
  user_state = subject;
  budget = record start.budget {
    stored = record start.budget.stored { daily = record { cpu = 5; inference = 5 } };
  };
}

decide-zero_example :
    (inference : Bool) × (decide policy (asking 1 0) lowered
      ≡ (lowered, ok (credit_violation (day_refusal inference))))
unfolding subject
decide-zero_example =
    decide-zero policy (asking 1 0) lowered refl (omega arith, omega arith)
      (omega arith, omega arith) (omega arith, omega arith) (omega arith, omega arith) (omega arith)
