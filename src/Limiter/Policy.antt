-- ===== src/Limiter/Policy.antt =====
-- src/limiter/quota.rs and src/limiter/protocol.rs: the limits, a request, and the violation that
-- a refused request is answered with.
use fareward.Common.{
  ℕ, ◌+◌, ◌*◌, ◌/◌, ◌≤◌, ◌≡◌, Bool, true, false, ◌||◌, Option, none, some, List, leb, ltb,
  if◌then◌else◌, arith,
}
use fareward.Limiter.Credits.{Credits, u64_max, checked_add_u64}

pub record CreditLimits : Type 0 where
  pub ten_seconds : ℕ
  pub hour : ℕ

pub record ScopeLimits : Type 0 where
  pub cpu : CreditLimits
  pub inference : CreditLimits

pub record LimitPolicy : Type 0 where
  pub company : ScopeLimits
  pub user : ScopeLimits
  pub company_extra_daily_cpu : ℕ
  pub user_daily_share_pct : ℕ

-- The product fits 128 bits, where the source computes it.
unfoldable pub daily_share : ℕ → ℕ → ℕ
daily_share company_daily percent =
    let share = company_daily * percent / 100 in if leb share u64_max then share else u64_max

abbrev pub user_daily : LimitPolicy → Credits → Credits
user_daily policy company_daily = record {
  cpu = daily_share company_daily.cpu policy.user_daily_share_pct;
  inference = daily_share company_daily.inference policy.user_daily_share_pct;
}

pub data Scope : Type 0 where
  company user : Scope

pub data Window : Type 0 where
  ten_seconds hour day month : Window

pub record LimitViolation : Type 0 where
  pub scope : Scope
  pub window : Window
  pub cpu : Bool
  pub inference : Bool

pub record Request : Type 0 where
  pub company_id : ℕ
  pub user_id : ℕ
  pub route_id : ℕ
  pub credits : Credits
  pub required_access : List ℕ
  pub extra_credits_allowed : Bool

unfoldable pub exceeds : ℕ → ℕ → ℕ → Bool
exceeds current requested limit = elim (checked_add_u64 current requested) [
  | none ↦ true
  | some total ↦ ltb limit total
]

abbrev pub violation_of : Scope → Window → Bool → Bool → Option LimitViolation
violation_of scope window cpu inference =
    if cpu || inference
    then some (record { scope = scope; window = window; cpu = cpu; inference = inference })
    else none

unfoldable pub fixed_limit_violation :
    Scope → Window → Credits → Credits → Credits → Option LimitViolation
unfolding exceeds
fixed_limit_violation scope window current requested limit =
    violation_of scope window (exceeds current.cpu requested.cpu limit.cpu)
      (exceeds current.inference requested.inference limit.inference)

-- What was used and what is asked for stay under a limit together.
abbrev pub Fits : Credits → Credits → Credits → Type 0
Fits used requested limit =
    (used.cpu + requested.cpu ≤ limit.cpu)
    × (used.inference + requested.inference ≤ limit.inference)

pub exceeds-false :
    (current requested limit : ℕ)
    → exceeds current requested limit ≡ false
    → (current + requested ≤ limit) × (current + requested ≤ u64_max)
unfolding exceeds
exceeds-false current requested limit h = ground arith

pub violation_of-none :
    (scope : Scope) (window : Window) (cpu inference : Bool)
    → violation_of scope window cpu inference ≡ none
    → (cpu ≡ false) × (inference ≡ false)
violation_of-none scope window cpu inference h = ground arith

abbrev pub u64_limits : Credits
u64_limits = record { cpu = u64_max; inference = u64_max }

pub fixed_limit_violation-none :
    (scope : Scope) (window : Window) (current requested limit : Credits)
    → fixed_limit_violation scope window current requested limit ≡ none
    → Fits current requested limit × Fits current requested u64_limits
unfolding fixed_limit_violation
fixed_limit_violation-none scope window current requested limit h =
    let (c, i) = violation_of-none scope window _ _ h in
    let (c1, c2) = exceeds-false current.cpu requested.cpu limit.cpu c in
    let (i1, i2) = exceeds-false current.inference requested.inference limit.inference i in
    ((c1, i1), (c2, i2))
