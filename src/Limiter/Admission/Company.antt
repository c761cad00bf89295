-- ===== src/Limiter/Admission/Company.antt =====
-- src/limiter/quota.rs: a company with its users, as the maps of a shard hold them once they are
-- loaded, and the requests of a stretch of time one after another.
use fareward.Common.{ℕ, ◌+◌, List, [], ◌∷◌, ◌==◌, if◌then◌else◌}
use fareward.Common.Result.{Result, ok, err}
use fareward.Limiter.Credits.{Credits, zero_credits}
use fareward.Limiter.Policy.{LimitPolicy, Request}
use fareward.Limiter.Subject.{QuotaError, SubjectState}
use fareward.Limiter.Subject.Gates.{plus}
use fareward.Limiter.Budget.{CompanyBudgetState}
use fareward.Limiter.Admission.{Accounts, Clock, Decision, allowed, credit_violation, admit}

pub record Company : Type 0 where
  pub company_state : SubjectState
  pub users : ℕ → SubjectState
  pub budget : CompanyBudgetState

abbrev pub accounts_of : ℕ → Company → Accounts
accounts_of user_id c = record {
  company_state = c.company_state;
  user_state = c.users user_id;
  budget = c.budget;
}

abbrev pub store_accounts : ℕ → Accounts → Company → Company
store_accounts user_id a c = record {
  company_state = a.company_state;
  users = λ k. if k == user_id then a.user_state else c.users k;
  budget = a.budget;
}

unfoldable pub admit_company :
    LimitPolicy → Clock → Request → Company → Company × Result QuotaError Decision
admit_company policy clock request c =
    let (a, r) = admit policy clock request (accounts_of request.user_id c) in
    (store_accounts request.user_id a c, r)

-- The credits that an answer lets through.
abbrev pub served : Credits → Result QuotaError Decision → Credits
served requested (ok allowed) = requested
served requested (ok (credit_violation v)) = zero_credits
served requested (err e) = zero_credits

-- The company after a list of requests, and the credits served to it.
unfoldable pub serve_all : LimitPolicy → List (Clock × Request) → Company → Company × Credits
unfolding admit_company
serve_all policy [] c = (c, zero_credits)
serve_all policy ((clock, request) ∷ rest) c =
    let (c', r) = admit_company policy clock request c in
    let (last, more) = serve_all policy rest c' in (last, plus (served request.credits r) more)

abbrev pub total_cpu : List (Clock × Request) → ℕ
total_cpu [] = 0
total_cpu ((clock, request) ∷ rest) = request.credits.cpu + total_cpu rest
