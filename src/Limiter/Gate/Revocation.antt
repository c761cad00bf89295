-- ===== src/Limiter/Gate/Revocation.antt =====
-- src/limiter/quota.rs: `invalidate_access`, and the authorization that follows it.
use fareward.Common.{◌≡◌, refl, ◌⊎◌, inl, inr, true, not, Option, none, some, arith}
use fareward.Common.Int.{ℤ, pos, eqb_ℤ}
use fareward.Common.KeyMap.{get, keep_if, get-put_self, get-keep_if_dropped}
use fareward.Common.Result.{Result, ok, err, Result-cases}
use fareward.Limiter.Policy.{Request}
use fareward.Limiter.Access.{
  AccessDenial, AccessVerdict, StoredUserAccess, UserAccessState, from_row, verdict,
}
use fareward.Limiter.Gate.{
  ShardState, LimiterStore, AdmitError, store_failed, bad_grants, SubjectKey, same_subject, ◌>>=◌,
  authorize, ensure_access, load_access, cached_verdict, invalidate_access, requests_authorization,
}

pub same_subject_sound : (j k : SubjectKey) → same_subject j k ≡ true → j ≡ k
same_subject_sound j k h = ground arith

pub same_subject_self : (k : SubjectKey) → same_subject k k ≡ true
same_subject_self k = ground arith

-- What the database alone makes of the request.
abbrev pub judge_row :
    ℤ
    → Request
    → Option (Option StoredUserAccess)
    → Result AdmitError (Result AccessDenial AccessVerdict)
judge_row unix_seconds request none = err store_failed
judge_row unix_seconds request (some row) = elim (from_row row unix_seconds) [
  | err e ↦ err (bad_grants e)
  | ok a ↦ ok (verdict a request.required_access)
]

module _ (store : LimiterStore) (ttl : ℤ) (request : Request) (unix_seconds : ℤ) where
  authorize_missing :
      (s : ShardState)
      → requests_authorization request ≡ true
      → get same_subject (pos request.company_id, pos request.user_id) s.access ≡ none
      → (authorize store ttl request unix_seconds s).1
        ≡ judge_row unix_seconds request
            (store.load_user_access (pos request.company_id) (pos request.user_id))
  unfolding authorize ensure_access load_access cached_verdict ◌>>=◌
  authorize_missing s asked missing =
      go (store.load_user_access (pos request.company_id) (pos request.user_id)) refl
    where
      key : SubjectKey
      key = (pos request.company_id, pos request.user_id)

      go :
          (row : Option (Option StoredUserAccess))
          → store.load_user_access (pos request.company_id) (pos request.user_id) ≡ row
          → (authorize store ttl request unix_seconds s).1 ≡ judge_row unix_seconds request row
      go none e = ground (arith, asked, missing, e)
      go (some row) e = elim (Result-cases (from_row row unix_seconds)) [
        | inl (a, f) ↦ ground (
          arith,
          asked,
          missing,
          e,
          f,
          get-put_self same_subject {V = UserAccessState} same_subject_sound same_subject_self key a
              s.access,
        )
        | inr (x, f) ↦ ground (arith, asked, missing, e, f)
      ]

  user_dropped :
      (user : ℤ) (s : ShardState)
      → user ≡ pos request.user_id
      → get same_subject
          (pos request.company_id, pos request.user_id)
          (keep_if same_subject
            (λ key _. not (same_subject key (pos request.company_id, user)))
            s.access)
        ≡ none
  user_dropped user s h =
      get-keep_if_dropped same_subject
        (λ key _. not (same_subject key (pos request.company_id, user)))
        (pos request.company_id, pos request.user_id) s.access (λ j w e. ground (arith, e, h))

  dropped :
      (user : ℤ) (s : ShardState)
      → (eqb_ℤ user (pos 0) ≡ true) ⊎ (user ≡ pos request.user_id)
      → get same_subject
          (pos request.company_id, pos request.user_id)
          (invalidate_access (pos request.company_id) user s).access
        ≡ none
  unfolding invalidate_access
  dropped user s h = ground (
    arith,
    h,
    get-keep_if_dropped same_subject {V = UserAccessState}
        (λ key _. not (eqb_ℤ key.0 (pos request.company_id)))
        (pos request.company_id, pos request.user_id) s.access (λ j w e. ground (arith, e)),
    user_dropped user s,
  )

  -- After the accesses of a user, or those of all users of its company, are invalidated, its next
  -- request that asks for accesses is judged by the row that the database answers with then.
  pub authorize-invalidate_access :
      (user : ℤ) (s : ShardState)
      → (user ≡ pos 0) ⊎ (user ≡ pos request.user_id)
      → requests_authorization request ≡ true
      → (authorize store ttl request unix_seconds
          (invalidate_access (pos request.company_id) user s)).1
        ≡ judge_row unix_seconds request
            (store.load_user_access (pos request.company_id) (pos request.user_id))
  authorize-invalidate_access user s h asked =
      authorize_missing (invalidate_access (pos request.company_id) user s) asked
        (dropped user s (ground arith))
