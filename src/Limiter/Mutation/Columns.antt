-- ===== src/Limiter/Mutation/Columns.antt =====
-- src/limiter/quota.rs: a budget stays within the signed 64-bit columns that hold it.
use fareward.Common.{
  ℕ, ◌≤◌, ◌≡◌, refl, sym, subst, Bool, true, false, Option, none, some, List, arith,
}
use fareward.Common.Int.{ℤ}
use fareward.Common.Result.{ok, err}
use fareward.Limiter.Credits.{Credits}
use fareward.Limiter.Budget.{StoredBudget, CompanyBudgetState, refresh_month}
use fareward.Limiter.Mutation.{
  i64_max, BudgetMutation, BudgetMutationFrame, BudgetOperation, set_daily, set_current,
  increase_current, check_frame, parse_budget_mutation, Mutated, mutated, set_current_budget,
  raise_budget, sunix_time, check_decoded, persist, keep, stamp, store_mutated, mutate_budget_at,
}

abbrev pub Fit : Credits → Type 0
Fit c = (c.cpu ≤ i64_max) × (c.inference ≤ i64_max)

abbrev pub FitsColumns : StoredBudget → Type 0
FitsColumns stored = Fit stored.daily × Fit stored.monthly_ceiling × Fit stored.last_set

check_frame-Fit :
    (frame : BudgetMutationFrame) (mutation : BudgetMutation)
    → check_frame frame ≡ ok mutation
    → Fit mutation.credits
unfolding check_frame
check_frame-Fit frame mutation h = ground arith

check_decoded-Fit :
    (frame : Option BudgetMutationFrame) (mutation : BudgetMutation)
    → check_decoded frame ≡ ok mutation
    → Fit mutation.credits
unfolding check_decoded
check_decoded-Fit none mutation h = cc
check_decoded-Fit (some frame) mutation h = check_frame-Fit frame mutation h

refresh_month-stored :
    (month : ℕ) (b : CompanyBudgetState) → (refresh_month month b).stored ≡ b.stored
unfolding refresh_month
refresh_month-stored month b = ground arith

set_current_budget-FitsColumns :
    (month : ℕ) (credits : Credits) (b : CompanyBudgetState) (stored : StoredBudget)
    → Fit credits
    → FitsColumns b.stored
    → set_current_budget month credits b ≡ ok stored
    → FitsColumns stored
unfolding set_current_budget
set_current_budget-FitsColumns month credits b stored c f h = ground arith

raise_budget-FitsColumns :
    (credits : Credits) (before stored : StoredBudget)
    → FitsColumns before
    → raise_budget credits before ≡ ok stored
    → FitsColumns stored
unfolding raise_budget
raise_budget-FitsColumns credits before stored f h = ground arith

mutated-FitsColumns :
    (month : ℕ) (operation : BudgetOperation) (credits : Credits) (b : CompanyBudgetState)
    (stored : StoredBudget)
    → Fit credits
    → FitsColumns b.stored
    → mutated month operation credits b ≡ ok stored
    → FitsColumns stored
unfolding mutated
mutated-FitsColumns month set_daily credits b stored c f h = ground arith
mutated-FitsColumns month set_current credits b stored c f h =
    set_current_budget-FitsColumns month credits b stored c f h
mutated-FitsColumns month increase_current credits b stored c f h =
    ground (arith, raise_budget-FitsColumns credits b.stored stored f)

-- The database holds rows that fit, and taking another such row keeps it so.
abbrev pub Keeps :
    {Db : Type 0} (upsert_budget : StoredBudget → Db → Db × Bool) → (Db → Type 0) → Type 0
Keeps {Db = Db} upsert_budget Good =
    (stored : StoredBudget) (db : Db)
    → FitsColumns stored
    → Good db
    → Good (upsert_budget stored db).0

module _ {Db : Type 0} (upsert_budget : StoredBudget → Db → Db × Bool) where
  persist-FitsColumns :
      (Good : Db → Type 0) (b : CompanyBudgetState) (stored : StoredBudget) (db : Db)
      → Keeps upsert_budget Good
      → FitsColumns stored
      → FitsColumns b.stored
      → Good db
      → let (b', db', r) = persist Db upsert_budget b stored db in FitsColumns b'.stored × Good db'
  unfolding persist keep
  persist-FitsColumns Good b stored db keeps fits f g =
      go (upsert_budget stored db) (keeps stored db fits g)
    where
      go :
          (written : Db × Bool)
          → Good written.0
          → let (b', db', r) = keep Db upsert_budget b stored written in
            FitsColumns b'.stored × Good db'
      go (db', true) good = (fits, good)
      go (db', false) good = (f, good)

  stamp-FitsColumns :
      (Good : Db → Type 0) (b : CompanyBudgetState) (stored : StoredBudget) (db : Db)
      (time : Option ℤ)
      → Keeps upsert_budget Good
      → FitsColumns stored
      → FitsColumns b.stored
      → Good db
      → let (b', db', r) = stamp Db upsert_budget b stored db time in
        FitsColumns b'.stored × Good db'
  unfolding stamp
  stamp-FitsColumns Good b stored db none keeps fits f g = (f, g)
  stamp-FitsColumns Good b stored db (some time) keeps fits f g =
      persist-FitsColumns Good b (record stored { updated = time }) db keeps fits f g

  store_mutated-FitsColumns :
      (Good : Db → Type 0) (seconds : ℕ) (b : CompanyBudgetState) (db : Db) (m : Mutated)
      → Keeps upsert_budget Good
      → ((stored : StoredBudget) → m ≡ ok stored → FitsColumns stored)
      → FitsColumns b.stored
      → Good db
      → let (b', db', r) = store_mutated Db upsert_budget seconds b db m in
        FitsColumns b'.stored × Good db'
  unfolding store_mutated
  store_mutated-FitsColumns Good seconds b db (err reply) keeps fits f g = (f, g)
  store_mutated-FitsColumns Good seconds b db (ok stored) keeps fits f g =
      stamp-FitsColumns Good b stored db (sunix_time seconds) keeps (fits stored refl) f g

  -- A parsed payload that changes a budget which fits the signed 64-bit columns leaves one that
  -- fits them, and offers the database only a row that does, whatever the database answers.
  pub mutate_budget_at-FitsColumns :
      (decode : List ℕ → Option BudgetMutationFrame) (payload : List ℕ) (mutation : BudgetMutation)
      (Good : Db → Type 0) (seconds month : ℕ) (b : CompanyBudgetState) (db : Db)
      → Keeps upsert_budget Good
      → parse_budget_mutation decode payload ≡ ok mutation
      → FitsColumns b.stored
      → Good db
      → let (b', db', r) = mutate_budget_at Db upsert_budget seconds month mutation b db in
        FitsColumns b'.stored × Good db'
  unfolding mutate_budget_at parse_budget_mutation
  mutate_budget_at-FitsColumns decode payload mutation Good seconds month b db keeps parsed f g =
      let credits = check_decoded-Fit (decode payload) mutation parsed in
      let b' = refresh_month month b in
      let same : b'.stored ≡ b.stored = refresh_month-stored month b in
      let f' = subst FitsColumns (sym same) f in
      store_mutated-FitsColumns Good seconds b' db _ keeps
        (λ stored h.
          mutated-FitsColumns month mutation.operation mutation.credits b' stored credits f' h)
        f' g
