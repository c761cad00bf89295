-- ===== src/Limiter/Admission/Branches.antt =====
-- src/limiter/quota.rs: every way that `admit_at` goes.
use fareward.Common.{
  ℕ, zero, suc, ◌+◌, ◌≤◌, ◌<◌, ◌≡◌, refl, sym, subst, true, false, not, ltb, arith, if◌then◌else◌,
  inl, inr, Option-cases, lt→ltb,
}
use fareward.Common.Result.{ok}
use fareward.Limiter.Credits.{Credits, u64_max}
use fareward.Limiter.Policy.{LimitPolicy, LimitViolation, Request, Fits, u64_limits}
use fareward.Limiter.Subject.{SubjectState, charge}
use fareward.Limiter.Subject.Gates.{plus, charged, charge-Holds, checked_add-Fits}
use fareward.Limiter.Budget.{
  CompanyBudgetState, add_extra_used, add_extra_month, add_month_used, bump_version,
}
use fareward.Limiter.Admission.{
  Accounts, allowed, credit_violation, burst_violation, quota_violation, extra_payment, pool_grant,
  charge_accounts, charge_user, charge_budget, settle, decide,
}
use fareward.Limiter.Admission.Gates.{
  HasBurst, IsEntitled, IsPooled, InMonth, burst_violation-none, quota_violation-none,
  pool_grant-some,
}

-- The 64-bit counters of a budget that no gate looks at can take one more request.
abbrev pub HasRoom : Credits → CompanyBudgetState → Type 0
HasRoom requested b =
    (b.version < u64_max)
    × (b.month_extra_used + requested.cpu ≤ u64_max)
    × (b.month_used.cpu ≤ u64_max)
    × (b.month_used.inference ≤ u64_max)

-- The accounts after a request that the entitlement pays.
abbrev pub entitled_accounts : Credits → Accounts → Accounts
entitled_accounts requested a = record {
  company_state = charged requested true a.company_state;
  user_state = charged requested true a.user_state;
  budget = record a.budget {
    month_used = plus a.budget.month_used requested;
    version = a.budget.version + 1;
  };
}

-- The accounts after a request that the pool of the day pays.
abbrev pub pooled_accounts : Credits → Accounts → Accounts
pooled_accounts requested a = record {
  company_state = charged requested false a.company_state;
  user_state = charged requested false a.user_state;
  budget = record a.budget {
    day_extra_used = a.budget.day_extra_used + requested.cpu;
    month_extra_used = a.budget.month_extra_used + requested.cpu;
    version = a.budget.version + 1;
  };
}

month_fit :
    (used requested : ℕ)
    → used ≤ u64_max
    → (0 < requested → used + requested ≤ u64_max)
    → used + requested ≤ u64_max
month_fit used zero u f = omega (arith, u)
month_fit used (suc requested) u f = f (omega arith)

pub month-Fits :
    (requested : Credits) (b : CompanyBudgetState)
    → HasRoom requested b
    → InMonth b (λ c. c.cpu) requested
    → InMonth b (λ c. c.inference) requested
    → Fits b.month_used requested u64_limits
month-Fits requested b r c i = (
  month_fit b.month_used.cpu requested.cpu r.2 (λ p. (c p).2),
  month_fit b.month_used.inference requested.inference r.3 (λ p. (i p).2),
)

add_month_used-Fits :
    (requested : Credits) (b : CompanyBudgetState)
    → HasRoom requested b
    → Fits b.month_used requested u64_limits
    → add_month_used requested b
      ≡ (record b { month_used = plus b.month_used requested; version = b.version + 1 }, ok tt)
unfolding add_month_used bump_version
add_month_used-Fits requested b r f =
    rw (add_month_used, checked_add-Fits b.month_used requested f) (ground arith)

add_extra_used-Fits :
    (requested : Credits) (b : CompanyBudgetState)
    → HasRoom requested b
    → b.day_extra_used + requested.cpu ≤ u64_max
    → add_extra_used requested.cpu b ≡ (
      record b {
        day_extra_used = b.day_extra_used + requested.cpu;
        month_extra_used = b.month_extra_used + requested.cpu;
        version = b.version + 1;
      },
      ok tt,
    )
unfolding add_extra_used add_extra_month bump_version
add_extra_used-Fits requested b r f = ground arith

-- The three charges one after another, when none fails.
settle-charged :
    (requested : Credits) (extra_cpu : ℕ) (a : Accounts) (c u : SubjectState)
    (b : CompanyBudgetState)
    → charge requested (not (ltb 0 extra_cpu)) a.company_state ≡ (c, ok tt)
    → charge requested (not (ltb 0 extra_cpu)) a.user_state ≡ (u, ok tt)
    → (if ltb 0 extra_cpu
        then add_extra_used extra_cpu a.budget
        else add_month_used requested a.budget)
      ≡ (b, ok tt)
    → settle requested extra_cpu a
      ≡ (record { company_state = c; user_state = u; budget = b }, ok allowed)
unfolding settle charge_accounts charge_user charge_budget
settle-charged requested extra_cpu a c u b hc hu hb =
    rw (settle, charge_accounts, hc, charge_user, hu, charge_budget, hb) cc

settle-entitled :
    (policy : LimitPolicy) (requested : Credits) (a : Accounts)
    → HasRoom requested a.budget
    → HasBurst policy.company requested a.company_state
    → HasBurst policy.user requested a.user_state
    → IsEntitled policy requested a
    → Fits a.company_state.day_used requested u64_limits
    → Fits a.user_state.day_used requested u64_limits
    → settle requested 0 a ≡ (entitled_accounts requested a, ok allowed)
settle-entitled policy requested a r c u e cd ud =
    settle-charged requested 0 a _ _ _
      (charge-Holds requested true a.company_state c.0 c.1.1 (λ _. cd))
      (charge-Holds requested true a.user_state u.0 u.1.1 (λ _. ud))
      (add_month_used-Fits requested a.budget r (month-Fits requested a.budget r e.1.0 e.1.1))

settle-pooled :
    (policy : LimitPolicy) (request : Request) (a : Accounts) (cpu : ℕ)
    → HasRoom request.credits a.budget
    → HasBurst policy.company request.credits a.company_state
    → HasBurst policy.user request.credits a.user_state
    → cpu ≡ request.credits.cpu
    → IsPooled policy request a
    → settle request.credits cpu a ≡ (pooled_accounts request.credits a, ok allowed)
settle-pooled policy request a cpu r c u same p =
    let requested = request.credits in
    let positive = lt→ltb 0 requested.cpu p.1 in
    subst (λ n. settle requested n a ≡ (pooled_accounts requested a, ok allowed)) (sym same)
      (settle-charged requested requested.cpu a _ _ _
        (rw positive (charge-Holds requested false a.company_state c.0 c.1.1 (λ h. cc)))
        (rw positive (charge-Holds requested false a.user_state u.0 u.1.1 (λ h. cc)))
        (rw positive (add_extra_used-Fits requested a.budget r p.4)))

-- What can come of a request: it is refused and nothing is charged, the entitlement has room for it
-- and pays, or the pool may and does.
pub data Branch (policy : LimitPolicy) (request : Request) (a : Accounts) : Type 0 where
  refused :
      (v : LimitViolation)
      → decide policy request a ≡ (a, ok (credit_violation v))
      → Branch policy request a
  entitled :
      HasBurst policy.company request.credits a.company_state
      → HasBurst policy.user request.credits a.user_state
      → IsEntitled policy request.credits a
      → decide policy request a ≡ (entitled_accounts request.credits a, ok allowed)
      → Branch policy request a
  pooled :
      HasBurst policy.company request.credits a.company_state
      → HasBurst policy.user request.credits a.user_state
      → IsPooled policy request a
      → decide policy request a ≡ (pooled_accounts request.credits a, ok allowed)
      → Branch policy request a

-- Where the counters have room, a request is answered and never fails half way: it is refused with
-- all accounts as they were, or the buckets, the hours and the entitlement hold its credits and are
-- charged them, or the buckets, the hours and the pool of the day do and are.
pub decide-Branch :
    (policy : LimitPolicy) (request : Request) (a : Accounts)
    → HasRoom request.credits a.budget
    → Branch policy request a
unfolding decide extra_payment
decide-Branch policy request a r = elim (Option-cases (burst_violation policy request.credits a)) [
  | inr (v, e) ↦ refused v (rw (decide, e) refl)
  | inl e ↦
      let (c, u) = burst_violation-none policy request.credits a e in
      elim (Option-cases (quota_violation policy request.credits a)) [
        | inl q ↦
            let (en, (cd, ud)) = quota_violation-none policy request.credits a q in
            entitled c u en (
              rw (decide, e, extra_payment, q)
                (settle-entitled policy request.credits a r c u en cd ud))
        | inr (v, q) ↦ elim (Option-cases (pool_grant policy request a)) [
          | inl g ↦ refused v (rw (decide, e, extra_payment, q, g) refl)
          | inr (cpu, g) ↦
              let (same, p) = pool_grant-some policy request a cpu g in
              pooled c u p (
                rw (decide, e, extra_payment, q, g)
                  (settle-pooled policy request a cpu r c u same p))
        ]
      ]
]
