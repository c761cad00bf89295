-- ===== src/Limiter/Admission/Free.antt =====
-- src/limiter/quota.rs: a request that carries no credits, sent for its authorization alone.
use fareward.Common.{ℕ, ◌≤◌, ◌<◌, ◌≡◌, refl, sym, ap, subst, Bool, true, false, none, some, arith}
use fareward.Common.Result.{ok}
use fareward.Limiter.Credits.{Credits, u64_max, zero_credits}
use fareward.Limiter.Policy.{
  LimitPolicy, ScopeLimits, Scope, company, user, ten_seconds, hour, day, LimitViolation, Request,
  exceeds, fixed_limit_violation, u64_limits,
}
use fareward.Limiter.Bucket.{cost}
use fareward.Limiter.Bucket
use fareward.Limiter.Subject.{SubjectState, violation, refusals}
use fareward.Limiter.Subject.Gates.{hourly}
use fareward.Limiter.Budget.{extra_grant}
use fareward.Limiter.Admission.{
  Accounts, credit_violation, burst_violation, quota_violation, extra_payment, pool_grant, decide,
}

abbrev pub Below : Credits → Credits → Type 0
Below c d = (c.cpu ≤ d.cpu) × (c.inference ≤ d.inference)

exceeds-zero : (used limit : ℕ) → used ≤ limit → used ≤ u64_max → exceeds used 0 limit ≡ false
unfolding exceeds
exceeds-zero used limit h m = ground arith

can_charge-zero : (b : Bucket.TokenBucket) → Bucket.can_charge 0 b ≡ true
unfolding Bucket.can_charge
can_charge-zero b = ground arith

violation-zero_burst :
    (scope : Scope) (limits : ScopeLimits) (s : SubjectState)
    → violation scope ten_seconds limits zero_credits s ≡ none
unfolding violation refusals
violation-zero_burst scope limits s =
    rw (can_charge-zero s.cpu_bucket, can_charge-zero s.inference_bucket) refl

violation-zero_hour :
    (scope : Scope) (limits : ScopeLimits) (s : SubjectState)
    → Below s.hour_used (hourly limits)
    → Below s.hour_used u64_limits
    → violation scope hour limits zero_credits s ≡ none
unfolding violation refusals
violation-zero_hour scope limits s h m =
    rw
      (
        exceeds-zero s.hour_used.cpu limits.cpu.hour h.0 m.0,
        exceeds-zero s.hour_used.inference limits.inference.hour h.1 m.1,
      )
      refl

burst_violation-zero :
    (policy : LimitPolicy) (a : Accounts)
    → Below a.company_state.hour_used (hourly policy.company)
    → Below a.company_state.hour_used u64_limits
    → Below a.user_state.hour_used (hourly policy.user)
    → Below a.user_state.hour_used u64_limits
    → burst_violation policy zero_credits a ≡ none
unfolding burst_violation
burst_violation-zero policy a ch cm uh um =
    rw
      (
        violation-zero_burst company policy.company a.company_state,
        violation-zero_burst user policy.user a.user_state,
        violation-zero_hour company policy.company a.company_state ch cm,
        violation-zero_hour user policy.user a.user_state uh um,
      )
      refl

exceeds-past : (used limit : ℕ) → limit < used → exceeds used 0 limit ≡ true
unfolding exceeds
exceeds-past used limit h = ground arith

-- The refusal that names the day of the company and its processor credits.
abbrev pub day_refusal : Bool → LimitViolation
day_refusal inference = record { scope = company; window = day; cpu = true; inference = inference }

quota_violation-zero :
    (policy : LimitPolicy) (a : Accounts)
    → a.budget.stored.daily.cpu < a.company_state.day_used.cpu
    → quota_violation policy zero_credits a
      ≡ some (
          day_refusal
            (exceeds a.company_state.day_used.inference 0 a.budget.stored.daily.inference))
unfolding quota_violation fixed_limit_violation
quota_violation-zero policy a h =
    rw (exceeds-past a.company_state.day_used.cpu a.budget.stored.daily.cpu h) refl

pool_grant-zero :
    (policy : LimitPolicy) (request : Request) (a : Accounts)
    → request.credits ≡ zero_credits
    → pool_grant policy request a ≡ none
unfolding extra_grant
pool_grant-zero policy request a free = let cpu = ap (λ c. c.cpu) free in ground arith

-- A request without credits is refused, where the hours have room, when the processor entitlement
-- of the day was lowered below what the company has used of it.
pub decide-zero :
    (policy : LimitPolicy) (request : Request) (a : Accounts)
    → request.credits ≡ zero_credits
    → Below a.company_state.hour_used (hourly policy.company)
    → Below a.company_state.hour_used u64_limits
    → Below a.user_state.hour_used (hourly policy.user)
    → Below a.user_state.hour_used u64_limits
    → a.budget.stored.daily.cpu < a.company_state.day_used.cpu
    → (inference : Bool) × (decide policy request a
        ≡ (a, ok (credit_violation (day_refusal inference))))
unfolding decide extra_payment
decide-zero policy request a free ch cm uh um h =
    let inference = exceeds a.company_state.day_used.inference 0 a.budget.stored.daily.inference in
    let passes =
      subst (λ c. burst_violation policy c a ≡ none) (sym free)
        (burst_violation-zero policy a ch cm uh um) in
    let past =
      subst (λ c. quota_violation policy c a ≡ some (day_refusal inference)) (sym free)
        (quota_violation-zero policy a h) in
    (
      inference,
      rw (decide, passes, extra_payment, past, pool_grant-zero policy request a free) refl,
    )
