-- ===== src/Limiter/Mutation/Month.antt =====
-- src/limiter/quota.rs: what a company may use of the month after its current budget is set.
use fareward.Common.{
  ℕ, ◌+◌, ◌^◌, ◌≤◌, ◌<◌, ◌≡◌, refl, sym, subst, ◌↔◌, inl, inr, Bool, true, false, ◌&&◌, ◌||◌, not,
  none, some, ltb, ◌==◌, arith, Option-cases,
}
use fareward.Common.Int.{ℤ}
use fareward.Common.Result.{ok}
use fareward.Limiter.Credits.{Credits, checked_add}
use fareward.Limiter.Policy.{company, month, exceeds, violation_of-none}
use fareward.Limiter.Budget.{StoredBudget, CompanyBudgetState, refresh_month, monthly_violation}
use fareward.Limiter.Subject.Gates.{plus}
use fareward.Limiter.Mutation.Columns.{Fit}
use fareward.Limiter.Mutation.{
  i64_max, BudgetMutation, set_current, done, mutated, set_current_budget, MutationStep, persist,
  keep, stamp, store_mutated, mutate_budget_at, sunix_time,
}

-- The ceiling of the month stands some credits above what is used, within the columns.
abbrev pub Leaves : Credits → CompanyBudgetState → Type 0
Leaves credits b =
    (b.stored.budget_month_start_day ≡ b.usage_month_start_day)
    × (b.stored.monthly_ceiling.cpu ≡ b.month_used.cpu + credits.cpu)
    × (b.stored.monthly_ceiling.inference ≡ b.month_used.inference + credits.inference)
    × (b.stored.monthly_ceiling.cpu ≤ i64_max)
    × (b.stored.monthly_ceiling.inference ≤ i64_max)

gate_iff :
    (start current used requested ceiling credits : ℕ)
    → start ≡ current
    → ceiling ≡ used + credits
    → ceiling ≤ i64_max
    → ((ltb 0 requested && (not (start == current) || exceeds used requested ceiling)) ≡ false)
      ↔ (requested ≤ credits)
unfolding exceeds
gate_iff start current used requested ceiling credits s c m = (λ h. ground arith, λ h. ground arith)

-- With the ceiling there, the gate of the month lets through what is left, and no more.
Leaves-monthly_violation :
    (credits : Credits) (b : CompanyBudgetState) (requested : Credits)
    → Leaves credits b
    → (monthly_violation requested b ≡ none)
      ↔ ((requested.cpu ≤ credits.cpu) × (requested.inference ≤ credits.inference))
unfolding monthly_violation
Leaves-monthly_violation credits b requested (active, c, i, cm, im) =
    let cpu = gate_iff _ _ b.month_used.cpu requested.cpu _ credits.cpu active c cm in
    let inference =
      gate_iff _ _ b.month_used.inference requested.inference _ credits.inference active i im in
    (
      λ h. let (x, y) = violation_of-none company month _ _ h in (cpu.0 x, inference.0 y),
      λ h. rw (cpu.1 h.0, inference.1 h.1) refl,
    )

-- The ceiling that a budget which fits the columns is given.
abbrev current_budget : ℕ → Credits → CompanyBudgetState → StoredBudget
current_budget now credits b = record b.stored {
  budget_month_start_day = now;
  monthly_ceiling = plus b.month_used credits;
  last_set = credits;
}

set_current_budget-Fit :
    (now : ℕ) (credits : Credits) (b : CompanyBudgetState)
    → Fit (plus b.month_used credits)
    → set_current_budget now credits b ≡ ok (current_budget now credits b)
unfolding set_current_budget checked_add
set_current_budget-Fit now credits b f = ground arith

-- The time of the stamp stays within 32 bits.
abbrev pub last_stamp : ℕ
last_stamp = 2 ^ 32 + 1_000_000_000

sunix_time-some :
    (seconds : ℕ) → seconds < last_stamp → (time : ℤ) × (sunix_time seconds ≡ some time)
unfolding sunix_time
sunix_time-some seconds h = elim (Option-cases (sunix_time seconds)) [
  | inl e ↦ absurd (ground arith)
  | inr (time, e) ↦ (time, e)
]

refresh_month-now :
    (now : ℕ) (b : CompanyBudgetState) → (refresh_month now b).usage_month_start_day ≡ now
unfolding refresh_month
refresh_month-now now b = ground arith

abbrev pub setting : ℤ → Credits → BudgetMutation
setting company_id credits = record {
  company_id = company_id;
  operation = set_current;
  credits = credits;
}

module _ {Db : Type 0} (upsert_budget : StoredBudget → Db → Db × Bool) where
  keep-accepted :
      (b : CompanyBudgetState) (stored : StoredBudget) (written : Db × Bool)
      → written.1 ≡ true
      → keep Db upsert_budget b stored written ≡ (record b { stored = stored }, written.0, ok done)
  unfolding keep
  keep-accepted b stored (db, true) h = refl
  keep-accepted b stored (db, false) h = cc

  -- Where the sum fits the columns, the clock the stamp, and the database takes the row, setting
  -- the current budget is answered with success, and the gate of the month then lets a request
  -- through exactly when it asks for no more than was set.
  pub mutate_budget_at-set_current :
      (seconds now : ℕ) (company_id : ℤ) (credits requested : Credits) (b : CompanyBudgetState)
      (db : Db)
      → Fit (plus (refresh_month now b).month_used credits)
      → seconds < last_stamp
      → ((row : StoredBudget) → (upsert_budget row db).1 ≡ true)
      → let (b', db', r) =
          mutate_budget_at Db upsert_budget seconds now (setting company_id credits) b db in
        (r ≡ ok done)
        × ((monthly_violation requested b' ≡ none)
            ↔ ((requested.cpu ≤ credits.cpu) × (requested.inference ≤ credits.inference)))
  unfolding mutate_budget_at mutated store_mutated stamp persist
  mutate_budget_at-set_current seconds now company_id credits requested b db f early accepts =
      let current = refresh_month now b in
      let (time, at) = sunix_time-some seconds early in
      let row = record (current_budget now credits current) { updated = time } in
      let after = record current { stored = row } in
      let step : mutate_budget_at Db upsert_budget seconds now (setting company_id credits) b db
          ≡ (after, (upsert_budget row db).0, ok done) =
        rw (set_current_budget-Fit now credits current f, at)
          (keep-accepted current row (upsert_budget row db) (accepts row)) in
      subst
        (λ (s : MutationStep Db upsert_budget).
          (s.2 ≡ ok done)
          × ((monthly_violation requested s.0 ≡ none)
              ↔ ((requested.cpu ≤ credits.cpu) × (requested.inference ≤ credits.inference))))
        (sym step)
        (
          refl,
          Leaves-monthly_violation credits after requested
              (sym (refresh_month-now now b), refl, refl, f.0, f.1),
        )
