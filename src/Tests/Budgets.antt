-- ===== src/Tests/Budgets.antt =====
-- src/limiter/budget.rs and src/limiter/quota.rs: changes of a budget over a log of written rows.
use fareward.Common.{
  ℕ, ◌≡◌, ◌≤◌, refl, [], ◌∷◌, List, Bool, true, arith, Option, none, some, All, ◌↔◌,
}
use fareward.Common.Int.{pos}
use fareward.Common.Result.{ok}
use fareward.Limiter.Credits.{zero_credits}
use fareward.Limiter.Budget.{StoredBudget, CompanyBudgetState, monthly_violation, refresh_month}
use fareward.Limiter.Mutation.{
  BudgetMutation, BudgetMutationFrame, parse_budget_mutation, mutate_budget_at, increase_current,
}
use fareward.Limiter.Mutation.Columns.{FitsColumns, mutate_budget_at-FitsColumns}
use fareward.Limiter.Mutation.Month.{setting, mutate_budget_at-set_current}

abbrev log : StoredBudget → List StoredBudget → List StoredBudget × Bool
log row rows = (row ∷ rows, true)

abbrev budget : CompanyBudgetState
budget = record {
  stored = record {
    company_id = 7;
    daily = record { cpu = 40; inference = 10 };
    budget_month_start_day = 0;
    monthly_ceiling = record { cpu = 1000; inference = 1000 };
    last_set = zero_credits;
    updated = pos 0;
  };
  usage_month_start_day = 0;
  month_used = record { cpu = 300; inference = 2 };
  extra_day_period = 0;
  day_extra_used = 0;
  month_extra_used = 0;
  version = 0;
  flushed_version = 0;
}

-- A codec that reads the credits from two bytes.
abbrev decode : List ℕ → Option BudgetMutationFrame
decode (cpu ∷ inference ∷ []) =
    some (record { company_id = pos 7; operation = 3; cpu = cpu; inference = inference })
decode bytes = none

abbrev raise : BudgetMutation
raise = record {
  company_id = pos 7;
  operation = increase_current;
  credits = record { cpu = 5; inference = 6 };
}

parsed : parse_budget_mutation decode (5 ∷ 6 ∷ []) ≡ ok raise
unfolding parse_budget_mutation
parsed = refl

mutate_budget_at-FitsColumns_example :
    FitsColumns (mutate_budget_at (List StoredBudget) log 1_000_000_000 0 raise budget []).0.stored
    × All FitsColumns (mutate_budget_at (List StoredBudget) log 1_000_000_000 0 raise budget []).1
mutate_budget_at-FitsColumns_example =
    mutate_budget_at-FitsColumns log decode (5 ∷ 6 ∷ []) raise (All FitsColumns) 1_000_000_000 0
      budget [] (λ row rows f g. (f, g)) parsed
      ((omega arith, omega arith), (omega arith, omega arith), (omega arith, omega arith)) tt

mutate_budget_at-set_current_example :
    let (b, db, r) =
      mutate_budget_at
        (List StoredBudget)
        log
        1_000_000_000
        0
        (setting (pos 7) raise.credits)
        budget
        [] in
    (monthly_violation (record { cpu = 5; inference = 7 }) b ≡ none) ↔ ((5 ≤ 5) × (7 ≤ 6))
unfolding mutate_budget_at refresh_month
mutate_budget_at-set_current_example =
    (mutate_budget_at-set_current log 1_000_000_000 0 (pos 7) raise.credits
      (record { cpu = 5; inference = 7 }) budget [] (omega arith, omega arith) (omega arith)
      (λ row. refl)).1
