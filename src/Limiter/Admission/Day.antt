-- ===== src/Limiter/Admission/Day.antt =====
-- src/limiter/quota.rs: what a company is served in a day.
use fareward.Common.{ℕ, suc, ◌+◌, ◌≤◌, ◌≡◌, refl, sym, subst, ◌∙◌, arith}
use fareward.Common.Result.{ok}
use fareward.Limiter.Credits.{Credits, u64_max}
use fareward.Limiter.Policy.{LimitPolicy, LimitViolation, ScopeLimits, Request}
use fareward.Limiter.Subject.{SubjectState, refresh_periods}
use fareward.Limiter.Budget.{CompanyBudgetState, refresh_day, refresh_month}
use fareward.Limiter.Admission.{
  Accounts, Clock, allowed, credit_violation, Admitted, decide, refresh,
}
use fareward.Limiter.Admission.Branches.{
  refused, entitled, pooled, decide-Branch, entitled_accounts, pooled_accounts, HasRoom, month-Fits,
}
use fareward.Limiter.Admission.Gates.{IsEntitled, IsPooled}
use fareward.Limiter.Admission.Company.{served}

-- The company is in a day and within its entitlement and its pool, and its 64-bit counters can take
-- some more requests that ask for some credits in all.
pub record InDay (policy : LimitPolicy) (today : ℕ) (requests cpu : ℕ) (s : SubjectState)
    (b : CompanyBudgetState) : Type 0 where
  pub day : s.day_period ≡ today
  pub extra_day : b.extra_day_period ≡ today
  pub cpu_within : s.day_used.cpu ≤ b.stored.daily.cpu
  pub inference_within : s.day_used.inference ≤ b.stored.daily.inference
  pub extra_within : b.day_extra_used ≤ policy.company_extra_daily_cpu
  pub version_room : b.version + requests ≤ u64_max
  pub extra_room : b.month_extra_used + cpu ≤ u64_max
  pub month_cpu : b.month_used.cpu ≤ u64_max
  pub month_inference : b.month_used.inference ≤ u64_max

-- What the accounts of the day hold of what was served: of the processor credits, and the others.
abbrev pub spent_cpu : SubjectState → CompanyBudgetState → ℕ
spent_cpu s b = s.day_used.cpu + b.day_extra_used

-- One answer: the company stays in the day, and its accounts hold what is served.
abbrev pub Accounted : LimitPolicy → ℕ → ℕ → ℕ → Credits → Accounts → Admitted → Type 0
Accounted policy today requests cpu requested a (a', r) =
    InDay policy today requests cpu a'.company_state a'.budget
    × (a'.budget.stored ≡ a.budget.stored)
    × (spent_cpu a'.company_state a'.budget
        ≡ (served requested r).cpu + spent_cpu a.company_state a.budget)
    × (a'.company_state.day_used.inference
        ≡ (served requested r).inference + a.company_state.day_used.inference)

-- A refresh of the month only takes away from the counters of the month.
refresh_month-keeps :
    (current : ℕ) (b : CompanyBudgetState)
    → let b' = refresh_month current b in
      (b'.stored ≡ b.stored)
      × (b'.extra_day_period ≡ b.extra_day_period)
      × (b'.day_extra_used ≡ b.day_extra_used)
      × (b'.version ≡ b.version)
      × (b'.month_extra_used ≤ b.month_extra_used)
      × (b'.month_used.cpu ≤ b.month_used.cpu)
      × (b'.month_used.inference ≤ b.month_used.inference)
unfolding refresh_month
refresh_month-keeps current b = ground arith

refresh_day-today :
    (today : ℕ) (b : CompanyBudgetState) → b.extra_day_period ≡ today → refresh_day today b ≡ b
unfolding refresh_day
refresh_day-today today b h = ground arith

refresh_periods-today :
    (limits : ScopeLimits) (seconds today now : ℕ) (s : SubjectState)
    → s.day_period ≡ today
    → (refresh_periods limits seconds today now s).day_used ≡ s.day_used
unfolding refresh_periods
refresh_periods-today limits seconds today now s h = ground arith

pub refresh-InDay :
    (policy : LimitPolicy) (clock : Clock) (requests cpu : ℕ) (a : Accounts)
    → InDay policy clock.day_period requests cpu a.company_state a.budget
    → let a' = refresh policy clock a in
      InDay policy clock.day_period requests cpu a'.company_state a'.budget
      × (a'.budget.stored ≡ a.budget.stored)
      × (a'.company_state.day_used ≡ a.company_state.day_used)
      × (a'.budget.day_extra_used ≡ a.budget.day_extra_used)
unfolding refresh refresh_periods
refresh-InDay policy clock requests cpu a h =
    let b' = refresh_month clock.month_start_day a.budget in
    let (stored, extra, pool, version, month_extra, month_cpu, month_inference) =
      refresh_month-keeps clock.month_start_day a.budget in
    let used =
      refresh_periods-today policy.company clock.unix_seconds clock.day_period clock.now
        a.company_state h.day in
    let a' = refresh policy clock a in
    subst
      (λ b.
        InDay policy clock.day_period requests cpu a'.company_state b
        × (b.stored ≡ a.budget.stored)
        × (a'.company_state.day_used ≡ a.company_state.day_used)
        × (b.day_extra_used ≡ a.budget.day_extra_used))
      (sym (refresh_day-today clock.day_period b' (extra ∙ h.extra_day)))
      (
        record {
          day = refl;
          extra_day = extra ∙ h.extra_day;
          cpu_within = rw (used, stored) h.cpu_within;
          inference_within = rw (used, stored) h.inference_within;
          extra_within = rw pool h.extra_within;
          version_room = rw version h.version_room;
          extra_room = omega (arith, month_extra, h.extra_room);
          month_cpu = omega (arith, month_cpu, h.month_cpu);
          month_inference = omega (arith, month_inference, h.month_inference);
        },
        stored,
        used,
        pool,
      )

refused-Accounted :
    (policy : LimitPolicy) (today requests cpu : ℕ) (requested : Credits) (a : Accounts)
    (v : LimitViolation)
    → InDay policy today (suc requests) (requested.cpu + cpu) a.company_state a.budget
    → Accounted policy today requests cpu requested a (a, ok (credit_violation v))
refused-Accounted policy today requests cpu requested a v h = (
  record {
    day = h.day;
    extra_day = h.extra_day;
    cpu_within = h.cpu_within;
    inference_within = h.inference_within;
    extra_within = h.extra_within;
    version_room = omega (arith, h.version_room);
    extra_room = omega (arith, h.extra_room);
    month_cpu = h.month_cpu;
    month_inference = h.month_inference;
  },
  refl,
  omega arith,
  omega arith,
)

entitled-Accounted :
    (policy : LimitPolicy) (today requests cpu : ℕ) (requested : Credits) (a : Accounts)
    → InDay policy today (suc requests) (requested.cpu + cpu) a.company_state a.budget
    → IsEntitled policy requested a
    → HasRoom requested a.budget
    → Accounted policy today requests cpu requested a (entitled_accounts requested a, ok allowed)
entitled-Accounted policy today requests cpu requested a h e r =
    let (month_cpu, month_inference) = month-Fits requested a.budget r e.1.0 e.1.1 in
    (
      record {
        day = h.day;
        extra_day = h.extra_day;
        cpu_within = e.0.0.0;
        inference_within = e.0.0.1;
        extra_within = h.extra_within;
        version_room = omega (arith, h.version_room);
        extra_room = omega (arith, h.extra_room);
        month_cpu = month_cpu;
        month_inference = month_inference;
      },
      refl,
      omega arith,
      omega arith,
    )

pooled-Accounted :
    (policy : LimitPolicy) (today requests cpu : ℕ) (request : Request) (a : Accounts)
    → InDay policy today (suc requests) (request.credits.cpu + cpu) a.company_state a.budget
    → IsPooled policy request a
    → Accounted policy today requests cpu request.credits a
        (pooled_accounts request.credits a, ok allowed)
pooled-Accounted policy today requests cpu request a h p = (
  record {
    day = h.day;
    extra_day = h.extra_day;
    cpu_within = h.cpu_within;
    inference_within = h.inference_within;
    extra_within = p.3;
    version_room = omega (arith, h.version_room);
    extra_room = omega (arith, h.extra_room);
    month_cpu = h.month_cpu;
    month_inference = h.month_inference;
  },
  refl,
  omega arith,
  omega (arith, p.2),
)

pub decide-Accounted :
    (policy : LimitPolicy) (today requests cpu : ℕ) (request : Request) (a : Accounts)
    → InDay policy today (suc requests) (request.credits.cpu + cpu) a.company_state a.budget
    → Accounted policy today requests cpu request.credits a (decide policy request a)
decide-Accounted policy today requests cpu request a h =
    let room : HasRoom request.credits a.budget = (
      omega (arith, h.version_room),
      omega (arith, h.extra_room),
      h.month_cpu,
      h.month_inference,
    ) in
    let P = Accounted policy today requests cpu request.credits a in
    elim (decide-Branch policy request a room) [
      | refused v e ↦
          subst P (sym e) (refused-Accounted policy today requests cpu request.credits a v h)
      | entitled c u en e ↦
          subst P (sym e) (entitled-Accounted policy today requests cpu request.credits a h en room)
      | pooled c u p e ↦ subst P (sym e) (pooled-Accounted policy today requests cpu request a h p)
    ]
