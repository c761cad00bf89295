-- ===== src/Limiter/Subject/Gates.antt =====
-- What the windows of a subject let through, and what a charge then does.
use fareward.Common.{
  ℕ, ◌+◌, ◌-◌, ◌≤◌, ◌≡◌, refl, Bool, true, false, not, none, some, arith, if◌then◌else◌,
}
use fareward.Common.Result.{ok}
use fareward.Limiter.Credits.{Credits, checked_add}
use fareward.Limiter.Policy.{
  ScopeLimits, Scope, ten_seconds, hour, exceeds-false, violation_of-none, Fits, u64_limits,
}
use fareward.Limiter.Bucket.{cost}
use fareward.Limiter.Bucket
use fareward.Limiter.Subject.{SubjectState, refusals, violation, charge, charge_daily}

-- The buckets hold the tokens of a request.
abbrev pub Holds : Credits → SubjectState → Type 0
Holds requested s =
    (cost requested.cpu ≤ s.cpu_bucket.scaled_tokens)
    × (cost requested.inference ≤ s.inference_bucket.scaled_tokens)

abbrev pub hourly : ScopeLimits → Credits
hourly limits = record { cpu = limits.cpu.hour; inference = limits.inference.hour }

can_charge-true :
    (credits : ℕ) (b : Bucket.TokenBucket)
    → not (Bucket.can_charge credits b) ≡ false
    → cost credits ≤ b.scaled_tokens
unfolding Bucket.can_charge
can_charge-true credits b h = ground arith

pub violation-ten_seconds :
    (scope : Scope) (limits : ScopeLimits) (requested : Credits) (s : SubjectState)
    → violation scope ten_seconds limits requested s ≡ none
    → Holds requested s
unfolding violation refusals
violation-ten_seconds scope limits requested s h =
    let (c, i) = violation_of-none scope ten_seconds _ _ h in
    (
      can_charge-true requested.cpu s.cpu_bucket c,
      can_charge-true requested.inference s.inference_bucket i,
    )

pub violation-hour :
    (scope : Scope) (limits : ScopeLimits) (requested : Credits) (s : SubjectState)
    → violation scope hour limits requested s ≡ none
    → Fits s.hour_used requested (hourly limits) × Fits s.hour_used requested u64_limits
unfolding violation refusals
violation-hour scope limits requested s h =
    let (c, i) = violation_of-none scope hour _ _ h in
    let (c1, c2) = exceeds-false s.hour_used.cpu requested.cpu limits.cpu.hour c in
    let (i1, i2) =
      exceeds-false s.hour_used.inference requested.inference limits.inference.hour i in
    ((c1, i1), (c2, i2))

abbrev pub plus : Credits → Credits → Credits
plus c d = record { cpu = c.cpu + d.cpu; inference = c.inference + d.inference }

-- The state that a charge leaves when it does not fail.
abbrev pub charged : Credits → Bool → SubjectState → SubjectState
charged requested count_daily s = record s {
  cpu_bucket = record s.cpu_bucket {
    scaled_tokens = s.cpu_bucket.scaled_tokens - cost requested.cpu;
  };
  inference_bucket = record s.inference_bucket {
    scaled_tokens = s.inference_bucket.scaled_tokens - cost requested.inference;
  };
  hour_used = plus s.hour_used requested;
  day_used = if count_daily then plus s.day_used requested else s.day_used;
}

pub checked_add-Fits : (c d : Credits) → Fits c d u64_limits → checked_add c d ≡ some (plus c d)
unfolding checked_add
checked_add-Fits c d f = ground arith

bucket_charge-Holds :
    (credits : ℕ) (b : Bucket.TokenBucket)
    → cost credits ≤ b.scaled_tokens
    → Bucket.charge credits b ≡ record b { scaled_tokens = b.scaled_tokens - cost credits }
unfolding Bucket.charge
bucket_charge-Holds credits b h = ground arith

pub charge-Holds :
    (requested : Credits) (count_daily : Bool) (s : SubjectState)
    → Holds requested s
    → Fits s.hour_used requested u64_limits
    → (count_daily ≡ true → Fits s.day_used requested u64_limits)
    → charge requested count_daily s ≡ (charged requested count_daily s, ok tt)
unfolding charge charge_daily
charge-Holds requested true s h f d =
    rw
      (
        charge,
        checked_add-Fits s.hour_used requested f,
        charge_daily,
        checked_add-Fits s.day_used requested (d refl),
        bucket_charge-Holds requested.cpu s.cpu_bucket h.0,
        bucket_charge-Holds requested.inference s.inference_bucket h.1,
      )
      refl
charge-Holds requested false s h f d =
    rw
      (
        charge,
        checked_add-Fits s.hour_used requested f,
        bucket_charge-Holds requested.cpu s.cpu_bucket h.0,
        bucket_charge-Holds requested.inference s.inference_bucket h.1,
      )
      refl
