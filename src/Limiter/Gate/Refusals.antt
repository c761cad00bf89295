-- ===== src/Limiter/Gate/Refusals.antt =====
-- src/limiter/quota.rs: what a refused authorization leaves behind.
use fareward.Common.{
  ℕ, ◌≡◌, refl, sym, ◌∙◌, ap, subst, Option, none, some, inl, inr, Bool-cases, arith,
}
use fareward.Common.Int.{ℤ, pos}
use fareward.Common.KeyMap.{get}
use fareward.Common.Result.{Result, ok, err, Result-cases}
use fareward.Limiter.Policy.{LimitPolicy, Request}
use fareward.Limiter.Access.{AccessDenial, AccessVerdict, UserAccessState, verdict}
use fareward.Limiter.Gate.{
  ShardState, LimiterStore, AdmitError, Call, ◌>>=◌, authorize, ensure_access, load_access,
  cached_verdict, same_subject, requests_authorization,
}
use fareward.Limiter.Gate.Charge.{denied, continue, admit_at}

-- A chain that succeeds.
pub bind-eq-ok :
    {A B : Type 0} (m : Call A) (f : A → Call B) (s : ShardState) {b : B}
    → ((m >>= f) s).1 ≡ ok b
    → (a : A) × ((m s).1 ≡ ok a) × ((m >>= f) s ≡ f a (m s).0)
unfolding ◌>>=◌
bind-eq-ok m f s h = elim (Result-cases (m s).1) [
  | inl (a, e) ↦ (a, e, rw (◌>>=◌, e) refl)
  | inr (x, e) ↦ absurd (ground (arith, e, h))
]

-- A call that succeeds, at the front of a chain.
pub bind-step :
    {A B : Type 0} (m : Call A) (f : A → Call B) (s t : ShardState) (a : A)
    → m s ≡ (t, ok a)
    → (m >>= f) s ≡ f a t
unfolding ◌>>=◌
bind-step m f s t a e = ap (λ out. elim out.1 [ ok b ↦ f b out.0 | err x ↦ (out.0, err x) ]) e

-- All but the cache of accesses.
pub record SameCharges (s t : ShardState) : Type 0 where
  pub same_subjects : t.subjects ≡ s.subjects
  pub same_budgets : t.budgets ≡ s.budgets
  pub same_usage_rows : t.usage ≡ s.usage
  pub same_platform : t.platform_usage ≡ s.platform_usage

module _ (store : LimiterStore) (ttl : ℤ) (policy : LimitPolicy) (request : Request)
    (unix_seconds : ℤ) (now : ℕ) (s : ShardState) where
  pub authorize-SameCharges : SameCharges s (authorize store ttl request unix_seconds s).0
  unfolding authorize ensure_access load_access cached_verdict ◌>>=◌
  authorize-SameCharges = record {
    same_subjects = ground arith;
    same_budgets = ground arith;
    same_usage_rows = ground arith;
    same_platform = ground arith;
  }

  continue-denied :
      (r : Result AccessDenial AccessVerdict) (t : ShardState) (denial : AccessDenial)
      → (continue store ttl policy request unix_seconds now r t).1 ≡ ok (denied denial)
      → (r ≡ err denial) × ((continue store ttl policy request unix_seconds now r t).0 ≡ t)
  unfolding continue ◌>>=◌
  continue-denied (err d) t denial h = (cc, refl)
  continue-denied (ok v) t denial h = absurd (ground arith)

  -- The denial is the verdict on what is cached for the user.
  abbrev Judged : {B : Type 0} → AccessDenial → ShardState × Result AdmitError B → Type 0
  Judged denial out =
      (a : UserAccessState) × (get same_subject (pos request.company_id, pos request.user_id)
          out.0.access
        ≡ some a)
      × (verdict a request.required_access ≡ err denial)

  cached-Judged :
      (t : ShardState) (denial : AccessDenial)
      → (cached_verdict (pos request.company_id) (pos request.user_id) request.required_access t).1
        ≡ ok (err denial)
      → Judged denial
          (cached_verdict (pos request.company_id) (pos request.user_id) request.required_access t)
  unfolding cached_verdict
  cached-Judged t denial h =
      go (get same_subject (pos request.company_id, pos request.user_id) t.access) refl
    where
      go :
          (o : Option UserAccessState)
          → get same_subject (pos request.company_id, pos request.user_id) t.access ≡ o
          → Judged denial (
              cached_verdict
                (pos request.company_id)
                (pos request.user_id)
                request.required_access
                t)
      go none e = absurd (ground (arith, e, h))
      go (some a) e = rw (cached_verdict, e) (a, e, ground (arith, e, h))

  authorize-denied :
      (denial : AccessDenial)
      → (authorize store ttl request unix_seconds s).1 ≡ ok (err denial)
      → Judged denial (authorize store ttl request unix_seconds s)
  unfolding authorize
  authorize-denied denial h = elim (Bool-cases (requests_authorization request)) [
    | inr open_route ↦ absurd (ground (arith, open_route, h))
    | inl asked ↦
        let m =
          ensure_access store ttl (pos request.company_id) (pos request.user_id) unix_seconds in
        let f = λ (_ : Unit {0}).
          cached_verdict (pos request.company_id) (pos request.user_id) request.required_access in
        let chain : authorize store ttl request unix_seconds s ≡ (m >>= f) s =
          rw (authorize, asked) refl in
        let (_, won, same) = bind-eq-ok m f s (ap (λ out. out.1) (sym chain) ∙ h) in
        subst (Judged denial) (sym (chain ∙ same))
          (cached-Judged (m s).0 denial (ap (λ out. out.1) (sym (chain ∙ same)) ∙ h))
  ]

  -- A request that is answered with a denial of access leaves all subjects, budgets and usage rows
  -- as they were, those of the platform too, and the denial is the verdict on the accesses that are
  -- then in the cache for the user.
  pub admit_at-denied :
      (denial : AccessDenial)
      → (admit_at store ttl policy request unix_seconds now s).1 ≡ ok (denied denial)
      → let after = (admit_at store ttl policy request unix_seconds now s).0 in
        SameCharges s after
        × ((a : UserAccessState) × (get same_subject
                (pos request.company_id, pos request.user_id)
                after.access
              ≡ some a)
            × (verdict a request.required_access ≡ err denial))
  unfolding admit_at
  admit_at-denied denial h =
      let m = authorize store ttl request unix_seconds in
      let (r, won, same) = bind-eq-ok m (continue store ttl policy request unix_seconds now) s h in
      let (refused, left) = continue-denied r (m s).0 denial (ap (λ out. out.1) (sym same) ∙ h) in
      let after_same = ap (λ out. out.0) same ∙ left in
      subst
        (λ t.
          SameCharges s t
          × ((a : UserAccessState) × (get same_subject (pos request.company_id, pos request.user_id)
                  t.access
                ≡ some a)
              × (verdict a request.required_access ≡ err denial)))
        (sym after_same) (authorize-SameCharges, authorize-denied denial (won ∙ ap ok refused))
