-- ===== src/Limiter/Admission/Total.antt =====
-- src/limiter/quota.rs: what a company is served in a day, over all its requests.
use fareward.Common.{
  ℕ, suc, ◌+◌, ◌≤◌, ◌≡◌, refl, ap, sym, subst, ◌∙◌, List, [], ◌∷◌, arith, length, All,
}
use fareward.Limiter.Policy.{LimitPolicy, Request}
use fareward.Limiter.Admission.{Accounts, Clock, admit, decide, refresh}
use fareward.Limiter.Admission.Company.{
  Company, accounts_of, admit_company, served, serve_all, total_cpu,
}
use fareward.Limiter.Admission.Day.{InDay, spent_cpu, Accounted, refresh-InDay, decide-Accounted}

abbrev pub IsOn : ℕ → Clock × Request → Type 0
IsOn today (clock, request) = clock.day_period ≡ today

-- A company in the day, with room for a list of requests.
abbrev pub Ready : LimitPolicy → ℕ → List (Clock × Request) → Company → Type 0
Ready policy today requests c =
    InDay policy today (length requests) (total_cpu requests) c.company_state c.budget

admit-Accounted :
    (policy : LimitPolicy) (clock : Clock) (requests cpu : ℕ) (request : Request) (a : Accounts)
    → InDay policy clock.day_period
        (suc requests)
        (request.credits.cpu + cpu)
        a.company_state
        a.budget
    → Accounted policy clock.day_period requests cpu request.credits a
        (admit policy clock request a)
unfolding admit
admit-Accounted policy clock requests cpu request a h =
    let (h', stored, used, pool) =
      refresh-InDay policy clock (suc requests) (request.credits.cpu + cpu) a h in
    let (day, same, spent, inference) =
      decide-Accounted policy clock.day_period requests cpu request (refresh policy clock a) h' in
    let answer = (decide policy request (refresh policy clock a)).1 in
    (
      day,
      same ∙ stored,
      spent
          ∙ ap (λ n. (served request.credits answer).cpu + n)
              (omega (arith, ap (λ c. c.cpu) used, pool)),
      inference ∙ ap (λ c. (served request.credits answer).inference + c.inference) used,
    )

serve_all-Accounted :
    (policy : LimitPolicy) (today : ℕ) (requests : List (Clock × Request)) (c : Company)
    → All (IsOn today) requests
    → Ready policy today requests c
    → let (c', total) = serve_all policy requests c in
      Ready policy today [] c'
      × (c'.budget.stored ≡ c.budget.stored)
      × (spent_cpu c'.company_state c'.budget ≡ total.cpu + spent_cpu c.company_state c.budget)
      × (c'.company_state.day_used.inference ≡ total.inference + c.company_state.day_used.inference)
unfolding serve_all admit_company
serve_all-Accounted policy today [] c o h = (h, refl, omega arith, omega arith)
serve_all-Accounted policy today ((clock, request) ∷ rest) c o h =
    let a = accounts_of request.user_id c in
    let (next, stored, spent, inference) =
      admit-Accounted policy clock (length rest) (total_cpu rest) request a (
        subst
          (λ d.
            InDay policy d (length ((clock, request) ∷ rest)) (total_cpu ((clock, request) ∷ rest))
              c.company_state c.budget)
          (sym o.0) h) in
    let c' = (admit_company policy clock request c).0 in
    let (last, stored', spent', inference') =
      serve_all-Accounted policy today rest c' o.1 (subst (λ d. Ready policy d rest c') o.0 next) in
    (last, stored' ∙ stored, omega (arith, spent, spent'), omega (arith, inference, inference'))

-- In a day, a company with all its users is served no more processor credits than its entitlement
-- and its pool of the day leave, and no more inference credits than its entitlement leaves. All
-- requests fall on the day, the company starts the day within both, and its 64-bit counters can
-- take the requests.
pub serve_all-daily :
    (policy : LimitPolicy) (today : ℕ) (requests : List (Clock × Request)) (c : Company)
    → All (IsOn today) requests
    → Ready policy today requests c
    → let total = (serve_all policy requests c).1 in
      (total.cpu + spent_cpu c.company_state c.budget
        ≤ c.budget.stored.daily.cpu + policy.company_extra_daily_cpu)
      × (total.inference + c.company_state.day_used.inference ≤ c.budget.stored.daily.inference)
serve_all-daily policy today requests c o h =
    let (end, stored, spent, inference) = serve_all-Accounted policy today requests c o h in
    let daily = ap (λ s. s.daily) stored in
    (
      omega (arith, spent, end.cpu_within, end.extra_within, ap (λ d. d.cpu) daily),
      omega (arith, inference, end.inference_within, ap (λ d. d.inference) daily),
    )
