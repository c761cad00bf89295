-- ===== src/Limiter/Subject.antt =====
-- src/limiter/quota.rs: `SubjectState`, the windows of a company or of a user. A call that fails
-- leaves behind what it changed before.
pub mod Gates
use fareward.Common.{ℕ, ◌/◌, ◌≡◌, Bool, true, false, not, Option, none, some, ◌==◌, if◌then◌else◌}
use fareward.Common.Result.{Result, ok, err}
use fareward.Limiter.Credits.{Credits, zero_credits, checked_add}
use fareward.Limiter.Policy.{
  ScopeLimits, Scope, Window, ten_seconds, hour, day, month, LimitViolation, exceeds, violation_of,
}
use fareward.Limiter.Bucket.{TokenBucket}
use fareward.Limiter.Bucket

pub data QuotaError : Type 0 where
  hour_overflow day_overflow month_overflow extra_day_overflow extra_month_overflow
        version_overflow :
      QuotaError

-- What a call that may fail answers.
abbrev pub Outcome : Type 0
Outcome = Result QuotaError (Unit {0})

pub record SubjectState : Type 0 where
  pub cpu_bucket : TokenBucket
  pub inference_bucket : TokenBucket
  pub hour_period : ℕ
  pub day_period : ℕ
  pub hour_used : Credits
  pub day_used : Credits

unfoldable pub recovered : ScopeLimits → ℕ → ℕ → ℕ → Credits → Credits → SubjectState
recovered limits unix_seconds day_period now hour_used day_used = record {
  cpu_bucket = Bucket.full limits.cpu.ten_seconds now;
  inference_bucket = Bucket.full limits.inference.ten_seconds now;
  hour_period = unix_seconds / 3600;
  day_period = day_period;
  hour_used = hour_used;
  day_used = day_used;
}

unfoldable pub refresh_periods : ScopeLimits → ℕ → ℕ → ℕ → SubjectState → SubjectState
refresh_periods limits unix_seconds day_period now s = record {
  cpu_bucket = Bucket.refill limits.cpu.ten_seconds now s.cpu_bucket;
  inference_bucket = Bucket.refill limits.inference.ten_seconds now s.inference_bucket;
  hour_period = unix_seconds / 3600;
  day_period = day_period;
  hour_used = if s.hour_period == unix_seconds / 3600 then s.hour_used else zero_credits;
  day_used = if s.day_period == day_period then s.day_used else zero_credits;
}

-- Whether a window refuses the requested processor credits, and the inference credits.
unfoldable pub refusals : Window → ScopeLimits → Credits → SubjectState → Bool × Bool
unfolding exceeds Bucket.can_charge
refusals ten_seconds limits requested s = (
  not (Bucket.can_charge requested.cpu s.cpu_bucket),
  not (Bucket.can_charge requested.inference s.inference_bucket),
)
refusals hour limits requested s = (
  exceeds s.hour_used.cpu requested.cpu limits.cpu.hour,
  exceeds s.hour_used.inference requested.inference limits.inference.hour,
)
refusals day limits requested s = (false, false)
refusals month limits requested s = (false, false)

unfoldable pub violation :
    Scope → Window → ScopeLimits → Credits → SubjectState → Option LimitViolation
unfolding refusals
violation scope window limits requested s =
    let (cpu, inference) = refusals window limits requested s in
    violation_of scope window cpu inference

unfoldable pub charge_daily : Credits → Bool → SubjectState → SubjectState × Outcome
unfolding checked_add
charge_daily requested false s = (s, ok tt)
charge_daily requested true s = elim (checked_add s.day_used requested) [
  | none ↦ (s, err day_overflow)
  | some used ↦ (record s { day_used = used }, ok tt)
]

unfoldable pub charge : Credits → Bool → SubjectState → SubjectState × Outcome
unfolding checked_add charge_daily Bucket.charge
charge requested count_daily s =
    let drawn = record s {
      cpu_bucket = Bucket.charge requested.cpu s.cpu_bucket;
      inference_bucket = Bucket.charge requested.inference s.inference_bucket;
    } in
    elim (checked_add s.hour_used requested) [
      | none ↦ (drawn, err hour_overflow)
      | some used ↦ charge_daily requested count_daily (record drawn { hour_used = used })
    ]
