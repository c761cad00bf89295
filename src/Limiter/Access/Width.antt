-- ===== src/Limiter/Access/Width.antt =====
-- src/limiter/access.rs: how many bytes of sub accesses a verdict carries.
use fareward.Common.{
  ℕ, zero, suc, ◌+◌, ◌*◌, ◌%◌, ◌^◌, ◌≤◌, ◌≡◌, refl, sym, subst, Option, none, some, List, [], ◌∷◌,
  leb, length, length-append, arith, inl, inr, Option-cases,
}
use fareward.Common.Int.{ℤ}
use fareward.Common.Result.{ok, refuse_if, >>=-eq-ok, ok-injective}
use fareward.Limiter.Access.{
  unpack_grant, sub_run, find_in_rest, find_in_sub_grants, sub_mask_from, check_sub_entry,
  validate_grants, validate_sub_rest, validate_sub_grants, StoredUserAccess, UserAccessState,
  AccessVerdict, from_row, judge_slot, judge_slots, verdict, no_verdict,
}

-- The check on load leaves a run of at most three bytes.
sub_mask_from-length :
    (index mask : ℕ) (bytes : List ℕ) (found : ℕ × List ℕ)
    → sub_mask_from index mask bytes ≡ ok found
    → (length (sub_run bytes).0 + index ≤ 3) × ((sub_run bytes).1 ≡ found.1)
unfolding sub_mask_from sub_run
sub_mask_from-length index mask [] found h = cc
sub_mask_from-length index mask (byte ∷ bytes) found h = ground (
  arith,
  sub_mask_from-length (index + 1) (mask + byte % 0x80 * 2 ^ (index * 7) % 2 ^ 16) bytes found,
)

check_sub_entry-length :
    (previous high low : ℕ) (bytes : List ℕ) (found : ℕ × List ℕ)
    → check_sub_entry previous (high ∷ low ∷ bytes) ≡ ok found
    → (length (sub_run bytes).0 ≤ 3) × ((sub_run bytes).1 ≡ found.1)
unfolding check_sub_entry
check_sub_entry-length previous high low bytes found h =
    let (u, e, h1) =
      >>=-eq-ok (refuse_if (leb (unpack_grant (high * 256 + low)).0 previous) _) _ h in
    let ((mask, rest), cut, h2) = >>=-eq-ok (sub_mask_from 0 0 bytes) _ h1 in
    let short = sub_mask_from-length 0 0 bytes (mask, rest) cut in ground arith

find_in_rest-length :
    (checks fuel previous : ℕ) (required : ℕ × ℕ) (bytes run : List ℕ)
    → validate_sub_rest checks previous bytes ≡ ok tt
    → find_in_rest fuel required bytes ≡ some run
    → length run ≤ 3
unfolding validate_sub_rest find_in_rest
find_in_rest-length checks zero previous required bytes run h f = cc
find_in_rest-length checks (suc fuel) previous required [] run h f = cc
find_in_rest-length checks (suc fuel) previous required (one ∷ []) run h f = cc
find_in_rest-length zero (suc fuel) previous required (high ∷ low ∷ bytes) run h f = cc
find_in_rest-length (suc checks) (suc fuel) previous required (high ∷ low ∷ bytes) run h f =
    let ((id, rest), e, h') = >>=-eq-ok (check_sub_entry previous (high ∷ low ∷ bytes)) _ h in
    let (short, cut) = check_sub_entry-length previous high low bytes (id, rest) e in
    let valid = subst (λ r. validate_sub_rest checks id r ≡ ok tt) (sym cut) h' in
    ground (arith, f, find_in_rest-length checks fuel id required (sub_run bytes).1 run valid)

find_in_sub_grants-length :
    (sub_grants : List ℕ) (required_grant : ℕ) (run : List ℕ)
    → validate_sub_grants sub_grants ≡ ok tt
    → find_in_sub_grants sub_grants required_grant ≡ some run
    → length run ≤ 3
unfolding find_in_sub_grants validate_sub_grants
find_in_sub_grants-length sub_grants required_grant run h f =
    find_in_rest-length (length sub_grants) (length sub_grants) 0 (unpack_grant required_grant)
      sub_grants run h f

module _ (s : UserAccessState) (valid : validate_sub_grants s.sub_grants ≡ ok tt) where
  judge_slot-length :
      (index required : ℕ) (v : AccessVerdict)
      → length (judge_slot s index required v).sub_bytes ≤ 3 + length v.sub_bytes
  unfolding judge_slot
  judge_slot-length index required v =
      elim (Option-cases (find_in_sub_grants s.sub_grants required)) [
        | inl missing ↦ ground (arith, missing)
        | inr (run, found) ↦ ground (
          arith,
          found,
          find_in_sub_grants-length s.sub_grants required run valid found,
          length-append v.sub_bytes run,
        )
      ]

  judge_slots-length :
      (index : ℕ) (slots : List ℕ) (v : AccessVerdict)
      → length (judge_slots s index slots v).sub_bytes ≤ 3 * length slots + length v.sub_bytes
  unfolding judge_slots
  judge_slots-length index [] v = omega arith
  judge_slots-length index (required ∷ slots) v = ground (
    arith,
    judge_slot-length index required v,
    judge_slots-length (index + 1) slots (judge_slot s index required v),
  )

validate_sub_grants-from_row :
    (row : Option StoredUserAccess) (loaded_at : ℤ) (s : UserAccessState)
    → from_row row loaded_at ≡ ok s
    → validate_sub_grants s.sub_grants ≡ ok tt
unfolding from_row validate_sub_grants validate_sub_rest
validate_sub_grants-from_row none loaded_at s h = rw (sym (ok-injective h)) refl
validate_sub_grants-from_row (some row) loaded_at s h =
    let (u, e, h1) = >>=-eq-ok (validate_grants row.grants_blob) _ h in
    let (u', e', h2) = >>=-eq-ok (validate_sub_grants row.sub_grants_blob) _ h1 in
    rw (sym (ok-injective h2)) e'

-- A verdict on a user that was loaded carries at most three bytes of sub accesses for each slot.
pub verdict-sub_bytes :
    (row : Option StoredUserAccess) (loaded_at : ℤ) (s : UserAccessState) (required : List ℕ)
    (v : AccessVerdict)
    → from_row row loaded_at ≡ ok s
    → verdict s required ≡ ok v
    → length v.sub_bytes ≤ 3 * length required
unfolding verdict
verdict-sub_bytes row loaded_at s required v loaded judged =
    let wide =
      judge_slots-length s (validate_sub_grants-from_row row loaded_at s loaded) 0 required
        no_verdict in
    ground (arith, judged, wide)
