-- ===== src/Limiter/Access/Runs.antt =====
-- src/limiter/access.rs: stopping early loses nothing in the blob of sub accesses.
use fareward.Common.{
  ℕ, zero, suc, ◌+◌, ◌*◌, ◌%◌, ◌^◌, ◌≤◌, ◌<◌, ◌≡◌, refl, sym, subst, Option, none, some, List, [],
  ◌∷◌, leb, ◌==◌, if◌then◌else◌, length, arith,
}
use fareward.Common.Result.{ok, refuse_if, >>=-eq-ok}
use fareward.Limiter.Access.{
  unpack_grant, sub_run, find_in_rest, find_in_sub_grants, sub_mask_from, check_sub_entry,
  validate_sub_rest, validate_sub_grants,
}

-- Every entry is looked at until one is of the access.
unfoldable pub scan_runs : ℕ → ℕ × ℕ → List ℕ → Option (List ℕ)
unfolding sub_run
scan_runs (suc fuel) required (high ∷ low ∷ bytes) =
    let granted = unpack_grant (high * 256 + low) in
    let (run, rest) = sub_run bytes in
    let later = scan_runs fuel required rest in
    if granted.0 == required.0 then (if leb required.1 granted.1 then some run else none) else later
scan_runs fuel required bytes = none

-- The check on load and the search cut the bytes at the same places.
sub_mask_from-sub_run :
    (index mask : ℕ) (bytes : List ℕ) (mask' : ℕ) (rest : List ℕ)
    → sub_mask_from index mask bytes ≡ ok (mask', rest)
    → (sub_run bytes).1 ≡ rest
unfolding sub_mask_from sub_run
sub_mask_from-sub_run index mask [] mask' rest h = cc
sub_mask_from-sub_run index mask (byte ∷ bytes) mask' rest h = ground (
  arith,
  sub_mask_from-sub_run (index + 1) (mask + byte % 0x80 * 2 ^ (index * 7) % 2 ^ 16) bytes mask'
      rest,
)

check_sub_entry-ok :
    (previous high low : ℕ) (bytes : List ℕ) (id : ℕ) (rest : List ℕ)
    → check_sub_entry previous (high ∷ low ∷ bytes) ≡ ok (id, rest)
    → (id ≡ (unpack_grant (high * 256 + low)).0) × (previous < id) × ((sub_run bytes).1 ≡ rest)
unfolding check_sub_entry
check_sub_entry-ok previous high low bytes id rest h =
    let (u, e, h1) =
      >>=-eq-ok (refuse_if (leb (unpack_grant (high * 256 + low)).0 previous) _) _ h in
    let ((mask, rest'), cut, h2) = >>=-eq-ok (sub_mask_from 0 0 bytes) _ h1 in
    let same = sub_mask_from-sub_run 0 0 bytes mask rest' cut in ground arith

-- An access at or below the last one seen is not in what is left.
scan_runs-past :
    (checks fuel previous : ℕ) (required : ℕ × ℕ) (bytes : List ℕ)
    → validate_sub_rest checks previous bytes ≡ ok tt
    → required.0 ≤ previous
    → scan_runs fuel required bytes ≡ none
unfolding validate_sub_rest scan_runs
scan_runs-past checks zero previous required bytes h past = refl
scan_runs-past checks (suc fuel) previous required [] h past = refl
scan_runs-past checks (suc fuel) previous required (one ∷ []) h past = refl
scan_runs-past zero (suc fuel) previous required (high ∷ low ∷ bytes) h past = cc
scan_runs-past (suc checks) (suc fuel) previous required (high ∷ low ∷ bytes) h past =
    let ((id, rest), e, h') = >>=-eq-ok (check_sub_entry previous (high ∷ low ∷ bytes)) _ h in
    let (same, later, cut) = check_sub_entry-ok previous high low bytes id rest e in
    let ih =
      scan_runs-past checks fuel id required (sub_run bytes).1
        (subst (λ r. validate_sub_rest checks id r ≡ ok tt) (sym cut) h')
        (omega (arith, past, later)) in
    ground arith

find_in_rest-scan_runs :
    (checks fuel previous : ℕ) (required : ℕ × ℕ) (bytes : List ℕ)
    → validate_sub_rest checks previous bytes ≡ ok tt
    → find_in_rest fuel required bytes ≡ scan_runs fuel required bytes
unfolding validate_sub_rest scan_runs find_in_rest
find_in_rest-scan_runs checks zero previous required bytes h = refl
find_in_rest-scan_runs checks (suc fuel) previous required [] h = refl
find_in_rest-scan_runs checks (suc fuel) previous required (one ∷ []) h = refl
find_in_rest-scan_runs zero (suc fuel) previous required (high ∷ low ∷ bytes) h = cc
find_in_rest-scan_runs (suc checks) (suc fuel) previous required (high ∷ low ∷ bytes) h =
    let ((id, rest), e, h') = >>=-eq-ok (check_sub_entry previous (high ∷ low ∷ bytes)) _ h in
    let (same, later, cut) = check_sub_entry-ok previous high low bytes id rest e in
    let valid = subst (λ r. validate_sub_rest checks id r ≡ ok tt) (sym cut) h' in
    ground (
      arith,
      find_in_rest-scan_runs checks fuel id required (sub_run bytes).1 valid,
      scan_runs-past checks fuel id required (sub_run bytes).1 valid,
    )

-- In a blob that passes the check on load the search, which stops at the first access above the
-- required one, answers what a scan of all entries does.
pub find_in_sub_grants-scan_runs :
    (sub_grants : List ℕ) (required_grant : ℕ)
    → validate_sub_grants sub_grants ≡ ok tt
    → find_in_sub_grants sub_grants required_grant
      ≡ scan_runs (length sub_grants) (unpack_grant required_grant) sub_grants
unfolding find_in_sub_grants validate_sub_grants
find_in_sub_grants-scan_runs sub_grants required_grant h =
    find_in_rest-scan_runs (length sub_grants) (length sub_grants) 0 (unpack_grant required_grant)
      sub_grants h
