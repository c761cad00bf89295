-- ===== src/Limiter/Gate/Warm.antt =====
-- src/limiter/quota.rs: `admit_at` on the maps decides and charges as Admission does on the accounts
-- of the request.
use fareward.Common.{ℕ, ◌≡◌, refl, sym, ◌∙◌, ap, subst, true, Option, none, some, arith}
use fareward.Common.Int.{ℤ, pos, pos_part, eqb_ℤ}
use fareward.Common.KeyMap.{get, get-put_self, get-put_ne}
use fareward.Common.Result.{Result, ok, err, ok-injective}
use fareward.Limiter.Policy.{LimitPolicy, LimitViolation, Request}
use fareward.Limiter.TimeFrame.{local_unix_day, month_start_day}
use fareward.Limiter.Subject.{QuotaError}
use fareward.Limiter.Admission.{
  Accounts, Clock, Decision, allowed, burst_violation, extra_payment, charge_accounts, settle,
  decide, refresh, admit,
}
use fareward.Limiter.Gate.{
  ShardState, AdmitError, LimiterStore, same_subject, company_aggregate_user_id, ◌>>=◌,
}
use fareward.Limiter.Gate.Load.{
  ensure_budget, ensure_subject, ensure_platform_usage, ensure_platform_row, load_platform,
  decode_optional,
}
use fareward.Limiter.Gate.Charge.{
  stored_accounts, keep_accounts, day_extra_of, increment_row, increment_usage,
  increment_platform_row, increment_platform_usage, post, pay, judge, ensure_states, refresh_states,
  charge_request, refresh_subjects,
}
use fareward.Limiter.Gate.Refusals.{bind-eq-ok, bind-step}
use fareward.Limiter.Gate.Revocation.{same_subject_sound, same_subject_self}

-- The accounts of the request are in memory.
pub record Warm (request : Request) (s : ShardState) (a : Accounts) : Type 0 where
  pub has_company :
      get same_subject (pos request.company_id, company_aggregate_user_id) s.subjects
      ≡ some a.company_state
  pub has_user :
      get same_subject (pos request.company_id, pos request.user_id) s.subjects ≡ some a.user_state
  pub has_budget : get eqb_ℤ (pos request.company_id) s.budgets ≡ some a.budget

abbrev pub SameStates : ShardState → ShardState → Type 0
SameStates s t = (t.subjects ≡ s.subjects) × (t.budgets ≡ s.budgets)

eqb_sound : (i j : ℤ) → eqb_ℤ i j ≡ true → i ≡ j
eqb_sound i j h = ground arith

eqb_self : (i : ℤ) → eqb_ℤ i i ≡ true
eqb_self i = ground arith

module _ (request : Request) where
  stored_accounts-Warm :
      (s : ShardState) (a : Accounts) → Warm request s a → stored_accounts request s ≡ (s, ok a)
  unfolding stored_accounts
  stored_accounts-Warm s a w = rw (stored_accounts, w.has_company, w.has_user, w.has_budget) refl

  pub keep_accounts-Warm :
      (s : ShardState) (a : Accounts) → Warm request (keep_accounts request a s) a
  keep_accounts-Warm s a = record {
    has_company =
        get-put_ne same_subject same_subject_sound same_subject_self _ _ a.user_state _
          (ground arith)
        ∙ get-put_self same_subject same_subject_sound same_subject_self _ a.company_state
            s.subjects;
    has_user = get-put_self same_subject same_subject_sound same_subject_self _ a.user_state _;
    has_budget = get-put_self eqb_ℤ eqb_sound eqb_self _ a.budget s.budgets;
  }

  Warm-SameStates :
      (s t : ShardState) (a : Accounts) → SameStates s t → Warm request s a → Warm request t a
  Warm-SameStates s t a (subjects, budgets) w = record {
    has_company = ap (get same_subject _) subjects ∙ w.has_company;
    has_user = ap (get same_subject _) subjects ∙ w.has_user;
    has_budget = ap (get eqb_ℤ _) budgets ∙ w.has_budget;
  }

  increment_usage-SameStates :
      (unix_seconds : ℤ) (s : ShardState) → SameStates s (increment_usage request unix_seconds s).0
  unfolding increment_usage increment_row ◌>>=◌
  increment_usage-SameStates unix_seconds s = ground arith

  increment_platform_usage-SameStates :
      (unix_seconds : ℤ) (s : ShardState)
      → SameStates s (increment_platform_usage request unix_seconds s).0
  unfolding increment_platform_usage increment_platform_row ◌>>=◌
  increment_platform_usage-SameStates unix_seconds s = ground arith

ensure_platform_usage-SameStates :
    (store : LimiterStore) (unix_seconds : ℤ) (s : ShardState)
    → SameStates s (ensure_platform_usage store unix_seconds s).0
unfolding ensure_platform_usage ensure_platform_row load_platform decode_optional ◌>>=◌
ensure_platform_usage-SameStates store unix_seconds s = ground arith

module _ (store : LimiterStore) (policy : LimitPolicy) (request : Request) (unix_seconds : ℤ)
    (now : ℕ) where
  post-allowed :
      (extra_cpu : ℕ) (a : Accounts) (s : ShardState) (d : Decision)
      → (post store policy request unix_seconds now extra_cpu a s).1 ≡ ok d
      → let charged = charge_accounts request.credits extra_cpu a in
        (charged.1 ≡ ok tt)
        × (d ≡ allowed)
        × SameStates
            (keep_accounts request charged.0 s)
            (post store policy request unix_seconds now extra_cpu a s).0
  unfolding post ◌>>=◌
  post-allowed extra_cpu a s d h =
      let kept = keep_accounts request (charge_accounts request.credits extra_cpu a).0 s in
      let rows = increment_usage request unix_seconds kept in
      ground (
        arith,
        h,
        increment_usage-SameStates request unix_seconds kept,
        increment_platform_usage-SameStates request unix_seconds rows.0,
      )

  -- What a call on the maps comes to, as what the accounts come to.
  Matches :
      ShardState × Result AdmitError Decision
      → Decision
      → Accounts × Result QuotaError Decision
      → Type 0
  Matches out d expected = (expected.1 ≡ ok d) × Warm request out.0 expected.0

  pay-Matches :
      (extra_cpu : ℕ) (a : Accounts) (s : ShardState) (d : Decision)
      → (pay store policy request unix_seconds now extra_cpu a s).1 ≡ ok d
      → Matches
          (pay store policy request unix_seconds now extra_cpu a s)
          d
          (settle request.credits extra_cpu a)
  unfolding Matches pay settle
  pay-Matches extra_cpu a s d h =
      let m = ensure_platform_usage store unix_seconds in
      let f = λ (_ : Unit {0}). post store policy request unix_seconds now extra_cpu a in
      let chain : pay store policy request unix_seconds now extra_cpu a s ≡ (m >>= f) s = refl in
      let (_, won, same) = bind-eq-ok m f s (ap (λ out. out.1) (sym chain) ∙ h) in
      let all = chain ∙ same in
      let (charged, answer, states) =
        post-allowed extra_cpu a (m s).0 d (ap (λ out. out.1) (sym all) ∙ h) in
      (
        rw (settle, charged, answer) refl,
        subst (λ out. Warm request out.0 (settle request.credits extra_cpu a).0) (sym all)
            (Warm-SameStates request _ _ _ states (keep_accounts-Warm request (m s).0 _)),
      )

  judge-Matches :
      (a : Accounts) (s : ShardState) (d : Decision)
      → Warm request s a
      → (judge store policy request unix_seconds now a s).1 ≡ ok d
      → Matches (judge store policy request unix_seconds now a s) d (decide policy request a)
  unfolding Matches judge decide
  judge-Matches a s d w h =
      go (burst_violation policy request.credits a) refl (extra_payment policy request a) refl
    where
      go :
          (burst : Option LimitViolation)
          → burst_violation policy request.credits a ≡ burst
          → (payment : Result LimitViolation ℕ) → extra_payment policy request a ≡ payment
          → Matches (judge store policy request unix_seconds now a s) d (decide policy request a)
      go (some v) e payment f = rw (judge, decide, e) (ap ok (ok-injective (rw (judge, e) at h)), w)
      go none e (err v) f =
          rw (judge, decide, e, f) (ap ok (ok-injective (rw (judge, e, f) at h)), w)
      go none e (ok extra_cpu) f =
          rw (judge, decide, e, f) (pay-Matches extra_cpu a s d (rw (judge, e, f) at h))

  ensure_states-Warm :
      (s : ShardState) (a : Accounts)
      → Warm request s a
      → ensure_states store policy request unix_seconds now s ≡ (s, ok tt)
  unfolding ensure_states ensure_budget ensure_subject day_extra_of
  ensure_states-Warm s a w =
      bind-step _ _ s s tt (rw (ensure_budget, w.has_budget) refl)
      ∙ bind-step _ _ s s a.budget.day_extra_used (rw (day_extra_of, w.has_budget) refl)
      ∙ bind-step _ _ s s tt (rw (ensure_subject, w.has_company) refl)
      ∙ rw (ensure_subject, w.has_user) refl

  abbrev clock : ℕ → ℕ → Clock
  clock day month = record {
    unix_seconds = pos_part unix_seconds;
    now = now;
    day_period = day;
    month_start_day = month;
  }

  refresh_states-Warm :
      (s : ShardState) (a : Accounts) (day month : ℕ)
      → Warm request s a
      → local_unix_day unix_seconds ≡ ok day
      → month_start_day unix_seconds ≡ ok month
      → refresh_states store policy request unix_seconds now s ≡ (
        keep_accounts request (refresh policy (clock day month) a) (
            keep_accounts request (refresh_subjects store policy request unix_seconds now day a) s),
        ok (refresh policy (clock day month) a),
      )
  unfolding refresh_states refresh
  refresh_states-Warm s a day month w d m =
      bind-step _ _ s s day (rw d refl)
      ∙ bind-step _ _ s s a (stored_accounts-Warm request s a w)
      ∙ bind-step _ _ s _ tt refl
      ∙ bind-step _ _ _ _ month (rw m refl)
      ∙ bind-step _ _ _ _ tt refl

  -- Where the accounts of a request are in memory and the times are in range, an admission on the
  -- maps that succeeds decides what Admission decides on the accounts, and leaves its accounts in the
  -- maps.
  pub charge_request-admit :
      (s : ShardState) (a : Accounts) (day month : ℕ) (d : Decision)
      → Warm request s a
      → local_unix_day unix_seconds ≡ ok day
      → month_start_day unix_seconds ≡ ok month
      → (charge_request store policy request unix_seconds now s).1 ≡ ok d
      → let out = charge_request store policy request unix_seconds now s in
        let expected = admit policy (clock day month) request a in
        (expected.1 ≡ ok d) × Warm request out.0 expected.0
  unfolding charge_request admit Matches
  charge_request-admit s a day month d w dd mm h =
      let chain : charge_request store policy request unix_seconds now s
          ≡ judge store policy request unix_seconds now (refresh policy (clock day month) a) (
              keep_accounts request (refresh policy (clock day month) a) (
                keep_accounts request (refresh_subjects store policy request unix_seconds now day a)
                  s)) =
        bind-step _ _ s _ _ (
          bind-step _ _ s s tt (ensure_states-Warm s a w)
          ∙ refresh_states-Warm s a day month w dd mm) in
      subst (λ out. Matches out d (admit policy (clock day month) request a)) (sym chain)
        (judge-Matches _ _ d (keep_accounts-Warm request _ _) (ap (λ out. out.1) (sym chain) ∙ h))
