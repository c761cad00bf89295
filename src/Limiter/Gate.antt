-- ===== src/Limiter/Gate.antt =====
-- src/limiter/quota.rs: `RateLimiter` with the maps of a shard, and the authorization in front of an
-- admission. A shard is locked from end to end of a call, and keys of different companies do not
-- meet, so one set of maps stands for all shards. What the database answers is a parameter.
pub mod Load
pub mod Charge
pub mod Refusals
pub mod Revocation
pub mod Warm
use fareward.Common.{
  ℕ, zero, suc, ◌≡◌, Bool, true, false, not, ◌&&◌, Option, none, some, List, [], ◌∷◌, ◌==◌,
  if◌then◌else◌,
}
use fareward.Common.Int.{ℤ, pos, negsuc, eqb_ℤ}
use fareward.Common.KeyMap.{get, put, keep_if}
use fareward.Common.Result.{Result, ok, err}
use fareward.Limiter.Credits.{Credits}
use fareward.Limiter.Policy.{Request}
use fareward.Limiter.Blob.{CreditsBlobError}
use fareward.Limiter.TimeFrame.{TimeFrameError}
use fareward.Limiter.Subject.{QuotaError, SubjectState}
use fareward.Limiter.Budget.{CompanyBudgetState, StoredBudget}
use fareward.Limiter.Usage.{UsageKey, UsageRecord, UsageError}
use fareward.Limiter.Access.{
  StoredUserAccess, UserAccessState, GrantsError, AccessDenial, AccessVerdict, from_row, is_fresh,
  verdict, no_verdict,
}

-- `COMPANY_AGGREGATE_USER_ID`
abbrev pub company_aggregate_user_id : ℤ
company_aggregate_user_id = negsuc 0

abbrev pub platform_aggregate_company_id : ℤ
platform_aggregate_company_id = pos 0

-- A company and a user of it.
abbrev pub SubjectKey : Type 0
SubjectKey = ℤ × ℤ

abbrev pub same_subject : SubjectKey → SubjectKey → Bool
same_subject a b = eqb_ℤ a.0 b.0 && eqb_ℤ a.1 b.1

abbrev pub same_usage : UsageKey → UsageKey → Bool
same_usage a b =
    eqb_ℤ a.company_id b.company_id && eqb_ℤ a.user_id b.user_id && eqb_ℤ a.time_frame b.time_frame

pub record ShardState : Type 0 where
  pub subjects : List (SubjectKey × SubjectState)
  pub budgets : List (ℤ × CompanyBudgetState)
  pub usage : List (UsageKey × UsageRecord)
  pub access : List (SubjectKey × UserAccessState)
  -- `RateLimiter::platform_usage`
  pub platform_usage : List (UsageKey × UsageRecord)

-- `StoredExtraUsage` and `StoredBudgetRow` of src/limiter/storage.rs
pub record StoredExtraUsage : Type 0 where
  pub day_period : ℤ
  pub day_cpu : ℕ
  pub month_start_day : ℤ
  pub month_cpu : ℕ

pub record StoredBudgetRow : Type 0 where
  pub budget : StoredBudget
  pub extra : StoredExtraUsage

-- The reads of `LimiterStore`, as the database answers them during a call: none where it fails. A
-- usage row is its time frame and its blob.
pub record LimiterStore : Type 0 where
  pub load_exact : UsageKey → Option (Option (List ℕ))
  pub load_range : ℤ → ℤ → ℕ → ℕ → Option (List (ℕ × List ℕ))
  pub load_budget : ℤ → Option (Option StoredBudgetRow)
  pub load_user_access : ℤ → ℤ → Option (Option StoredUserAccess)

pub data AdmitError : Type 0 where
  store_failed recovered_overflow not_initialized : AdmitError
  bad_time : TimeFrameError → AdmitError
  bad_blob : CreditsBlobError → AdmitError
  bad_grants : GrantsError → AdmitError
  quota_failed : QuotaError → AdmitError
  usage_failed : UsageError → AdmitError

-- A function that changes the maps and may fail; a failure leaves what was changed before it.
abbrev pub Call : Type 0 → Type 0
Call A = ShardState → ShardState × Result AdmitError A

infixl 5 ◌>>=◌ ◌>>◌
unfoldable pub ◌>>=◌ : {A B : Type 0} → Call A → (A → Call B) → Call B
◌>>=◌ m f s = elim (m s).1 [ ok a ↦ f a (m s).0 | err e ↦ ((m s).0, err e) ]

abbrev pub ◌>>◌ : {B : Type 0} → Call (Unit {0}) → Call B → Call B
m >> k = m >>= λ _. k

abbrev pub return : {A : Type 0} → A → Call A
return a s = (s, ok a)

abbrev pub lift : {E A : Type 0} → (E → AdmitError) → Result E A → Call A
lift wrap (ok a) s = (s, ok a)
lift wrap (err e) s = (s, err (wrap e))

-- An answer of the database.
abbrev pub answered : {A : Type 0} → Option A → Call A
answered none s = (s, err store_failed)
answered (some a) s = (s, ok a)

abbrev pub modify : (ShardState → ShardState) → Call (Unit {0})
modify f s = (f s, ok tt)

abbrev pub is_fresh_entry : Option UserAccessState → ℤ → ℤ → Bool
is_fresh_entry none unix_seconds ttl = false
is_fresh_entry (some a) unix_seconds ttl = is_fresh a unix_seconds ttl

abbrev pub keep_access : SubjectKey → UserAccessState → ShardState → ShardState
keep_access key a s = record s { access = put same_subject key a s.access }

unfoldable pub load_access : LimiterStore → ℤ → ℤ → ℤ → Call (Unit {0})
unfolding from_row put
load_access store company user unix_seconds = do
  row ← answered (store.load_user_access company user)
  state ← lift bad_grants (from_row row unix_seconds)
  modify (keep_access (company, user) state)

unfoldable pub ensure_access : LimiterStore → ℤ → ℤ → ℤ → ℤ → Call (Unit {0})
unfolding is_fresh load_access get
ensure_access store ttl company user unix_seconds s =
    if is_fresh_entry (get same_subject (company, user) s.access) unix_seconds ttl
    then (s, ok tt)
    else load_access store company user unix_seconds s

unfoldable pub invalidate_access : ℤ → ℤ → ShardState → ShardState
unfolding keep_if
invalidate_access company user s = record s {
  access =
      if eqb_ℤ user (pos 0)
      then keep_if same_subject (λ key _. not (eqb_ℤ key.0 company)) s.access
      else keep_if same_subject (λ key _. not (same_subject key (company, user))) s.access;
}

abbrev pub first_slot : List ℕ → ℕ
first_slot [] = 0
first_slot (slot ∷ slots) = slot

abbrev pub requests_authorization : Request → Bool
requests_authorization request = not (first_slot request.required_access == 0)

-- The verdict on the user in the cache.
unfoldable pub cached_verdict : ℤ → ℤ → List ℕ → Call (Result AccessDenial AccessVerdict)
unfolding verdict get
cached_verdict company user required s = elim (get same_subject (company, user) s.access) [
  | none ↦ (s, err not_initialized)
  | some a ↦ (s, ok (verdict a required))
]

unfoldable pub authorize : LimiterStore → ℤ → Request → ℤ → Call (Result AccessDenial AccessVerdict)
unfolding ensure_access cached_verdict
authorize store ttl request unix_seconds =
    if requests_authorization request
    then (ensure_access store ttl (pos request.company_id) (pos request.user_id) unix_seconds
        >> cached_verdict (pos request.company_id) (pos request.user_id) request.required_access)
    else return (ok no_verdict)
