-- ===== src/Limiter/Mutation.antt =====
-- src/limiter/budget.rs and src/limiter/quota.rs: the payload that changes a budget, and
-- `mutate_budget_at` for a budget that is loaded. The codec and the database are parameters.
pub mod Columns
pub mod Month
use fareward.Common.{
  ℕ, ◌+◌, ◌-◌, ◌*◌, ◌/◌, ◌^◌, ◌≡◌, Bool, true, false, ◌||◌, not, Option, none, some, List, leb, ltb,
  ◌==◌, if◌then◌else◌,
}
use fareward.Common.Int.{ℤ, pos, ◌-ℤ◌, leb_ℤ}
use fareward.Common.Result.{Result, ok, err, ◌>>=◌, ◌>>◌, refuse_if}
use fareward.Limiter.Credits.{Credits, checked_add, checked_add_u64}
use fareward.Limiter.Budget.{StoredBudget, CompanyBudgetState, refresh_month}

abbrev pub i64_max : ℕ
i64_max = 2 ^ 63 - 1

pub data BudgetOperation : Type 0 where
  set_daily set_current increase_current : BudgetOperation

pub record BudgetMutation : Type 0 where
  pub company_id : ℤ
  pub operation : BudgetOperation
  pub credits : Credits

-- `BudgetMutationReply::Ok` is `done`.
pub data BudgetMutationReply : Type 0 where
  done current_month_not_configured overflow : BudgetMutationReply

pub record BudgetMutationFrame : Type 0 where
  pub company_id : ℤ
  pub operation : ℕ
  pub cpu : ℕ
  pub inference : ℕ

pub data BudgetProtocolError : Type 0 where
  malformed invalid_company : BudgetProtocolError
  invalid_operation : ℕ → BudgetProtocolError
  credit_overflow : BudgetProtocolError

unfoldable pub parse_operation : ℕ → Result BudgetProtocolError BudgetOperation
parse_operation value =
    if value == 1
    then ok set_daily
    else if value == 2
    then ok set_current
    else if value == 3
    then ok increase_current
    else err (invalid_operation value)

unfoldable pub check_frame : BudgetMutationFrame → Result BudgetProtocolError BudgetMutation
unfolding parse_operation
check_frame frame = do
  refuse_if (leb_ℤ frame.company_id (pos 0)) invalid_company
  operation ← parse_operation frame.operation
  refuse_if (ltb i64_max frame.cpu || ltb i64_max frame.inference) credit_overflow
  ok (record {
    company_id = frame.company_id;
    operation = operation;
    credits = record { cpu = frame.cpu; inference = frame.inference };
  })

unfoldable pub check_decoded :
    Option BudgetMutationFrame → Result BudgetProtocolError BudgetMutation
unfolding check_frame
check_decoded none = err malformed
check_decoded (some frame) = check_frame frame

-- `decode` is the codec of the colbin crate.
unfoldable pub parse_budget_mutation :
    (List ℕ → Option BudgetMutationFrame) → List ℕ → Result BudgetProtocolError BudgetMutation
unfolding check_decoded
parse_budget_mutation decode payload = check_decoded (decode payload)

abbrev pub past_columns : Credits → Bool
past_columns c = ltb i64_max c.cpu || ltb i64_max c.inference

abbrev pub Mutated : Type 0
Mutated = Result BudgetMutationReply StoredBudget

unfoldable pub set_current_budget : ℕ → Credits → CompanyBudgetState → Mutated
unfolding checked_add
set_current_budget month credits b = elim (checked_add b.month_used credits) [
  | none ↦ err overflow
  | some ceiling ↦
      if past_columns ceiling
      then err overflow
      else ok (record b.stored {
        budget_month_start_day = month;
        monthly_ceiling = ceiling;
        last_set = credits;
      })
]

unfoldable pub raise_budget : Credits → StoredBudget → Mutated
unfolding checked_add
raise_budget credits stored = elim (checked_add stored.monthly_ceiling credits) [
  | none ↦ err overflow
  | some ceiling ↦ elim (checked_add stored.last_set credits) [
    | none ↦ err overflow
    | some last_set ↦
        if past_columns ceiling || past_columns last_set
        then err overflow
        else ok (record stored { monthly_ceiling = ceiling; last_set = last_set })
  ]
]

-- The budget that an operation asks for, or the reply that ends the call.
unfoldable pub mutated : ℕ → BudgetOperation → Credits → CompanyBudgetState → Mutated
unfolding set_current_budget raise_budget
mutated month set_daily credits b = ok (record b.stored { daily = credits })
mutated month set_current credits b = set_current_budget month credits b
mutated month increase_current credits b =
    if b.stored.budget_month_start_day == month
    then raise_budget credits b.stored
    else err current_month_not_configured

-- The seconds stand before or after the one that counts as zero; the division rounds towards it.
unfoldable pub sunix_time : ℕ → Option ℤ
sunix_time unix_seconds =
    if ltb unix_seconds 1_000_000_000
    then some (pos 0 -ℤ pos ((1_000_000_000 - unix_seconds) / 2))
    else let half = (unix_seconds - 1_000_000_000) / 2 in
      if leb half (2 ^ 31 - 1) then some (pos half) else none

pub data MutationError : Type 0 where
  time_overflow not_persisted : MutationError

module _ (Db : Type 0) (upsert_budget : StoredBudget → Db → Db × Bool) where
  abbrev pub MutationStep : Type 0
  MutationStep = CompanyBudgetState × Db × Result MutationError BudgetMutationReply

  unfoldable pub keep : CompanyBudgetState → StoredBudget → Db × Bool → MutationStep
  keep b stored (db, true) = (record b { stored = stored }, db, ok done)
  keep b stored (db, false) = (b, db, err not_persisted)

  -- The row is written first; the budget in memory follows where the database took it.
  unfoldable pub persist : CompanyBudgetState → StoredBudget → Db → MutationStep
  unfolding keep
  persist b stored db = keep b stored (upsert_budget stored db)

  unfoldable pub stamp : CompanyBudgetState → StoredBudget → Db → Option ℤ → MutationStep
  unfolding persist
  stamp b stored db none = (b, db, err time_overflow)
  stamp b stored db (some time) = persist b (record stored { updated = time }) db

  unfoldable pub store_mutated : ℕ → CompanyBudgetState → Db → Mutated → MutationStep
  unfolding stamp sunix_time
  store_mutated unix_seconds b db (err reply) = (b, db, ok reply)
  store_mutated unix_seconds b db (ok stored) = stamp b stored db (sunix_time unix_seconds)

  unfoldable pub mutate_budget_at : ℕ → ℕ → BudgetMutation → CompanyBudgetState → Db → MutationStep
  unfolding mutated store_mutated
  mutate_budget_at unix_seconds month mutation b db =
      let b' = refresh_month month b in
      store_mutated unix_seconds b' db (mutated month mutation.operation mutation.credits b')
