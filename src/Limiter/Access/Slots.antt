-- ===== src/Limiter/Access/Slots.antt =====
-- src/limiter/access.rs: the verdict against the accesses that each slot finds.
use fareward.Common.{
  ℕ, ◌+◌, ◌*◌, ◌^◌, ◌≡◌, refl, sym, ap, ◌∙◌, inl, inr, ◌↔◌, Bool, true, false, not, ◌||◌, Option,
  none, some, List, [], ◌∷◌, ◌++◌, append_assoc, append-nil, ◌==◌, if◌then◌else◌, arith, Bool-cases,
}
use native.Mathlib.Nat.{add-mul, mul-add, two-pow-succ}
use fareward.Common.Int.{pos, eqb_ℤ}
use fareward.Common.Result.{Result, ok, err}
use fareward.Limiter.Access.{
  AccessVerdict, UserAccessState, AccessDenial, no_access, unknown_user, inactive_user, no_verdict,
  is_granted, holds_in_grants, find_in_sub_grants, judge_slot, judge_slots, verdict,
}

-- What a slot finds: nothing, a plain access, or one with the bytes of its sub accesses.
pub data Found : Type 0 where
  nothing plain : Found
  with_subs : List ℕ → Found

unfoldable pub found_at : UserAccessState → ℕ → Found
found_at s required =
    if holds_in_grants s.grants required
    then plain
    else elim (find_in_sub_grants s.sub_grants required) [
      | none ↦ nothing
      | some run ↦ with_subs run
    ]

abbrev pub grants_access : Found → Bool
grants_access nothing = false
grants_access plain = true
grants_access (with_subs run) = true

abbrev pub carries_subs : Found → Bool
carries_subs nothing = false
carries_subs plain = false
carries_subs (with_subs run) = true

abbrev pub runs_of : Found → List ℕ
runs_of nothing = []
runs_of plain = []
runs_of (with_subs run) = run

-- The slots in front of the first zero, with what each finds.
unfoldable pub filled_found : UserAccessState → List ℕ → List Found
unfolding found_at
filled_found s [] = []
filled_found s (required ∷ slots) =
    let later = filled_found s slots in if required == 0 then [] else found_at s required ∷ later

-- Bit by bit, the first at the front.
unfoldable pub mask_of : (Found → Bool) → List Found → ℕ
mask_of test [] = 0
mask_of test (f ∷ founds) = let rest = mask_of test founds in (if test f then 1 else 0) + 2 * rest

unfoldable pub any_of : (Found → Bool) → List Found → Bool
any_of test [] = false
any_of test (f ∷ founds) = test f || any_of test founds

unfoldable pub all_runs : List Found → List ℕ
all_runs [] = []
all_runs (f ∷ founds) = runs_of f ++ all_runs founds

abbrev pub verdict_of : List Found → AccessVerdict
verdict_of founds = record {
  granted_mask = mask_of grants_access founds;
  has_subs_mask = mask_of carries_subs founds;
  sub_bytes = all_runs founds;
}

mask_of-any_of :
    (test : Found → Bool) (founds : List Found)
    → ((mask_of test founds == 0) ≡ true) ↔ (any_of test founds ≡ false)
unfolding mask_of any_of
mask_of-any_of test [] = ground arith
mask_of-any_of test (f ∷ founds) = ground (arith, mask_of-any_of test founds)

-- A verdict with what a list of slots adds to it, from an index on.
abbrev added : ℕ → AccessVerdict → List Found → AccessVerdict
added index v founds = record {
  granted_mask = v.granted_mask + 2 ^ index * mask_of grants_access founds;
  has_subs_mask = v.has_subs_mask + 2 ^ index * mask_of carries_subs founds;
  sub_bytes = v.sub_bytes ++ all_runs founds;
}

verdict_parts :
    {v w : AccessVerdict}
    → v.granted_mask ≡ w.granted_mask
    → v.has_subs_mask ≡ w.has_subs_mask
    → v.sub_bytes ≡ w.sub_bytes
    → v ≡ w
verdict_parts a b c = cc

mul-bit : (n : ℕ) (b : Bool) → n * ((if b then 1 else 0) + 2 * 0) ≡ (if b then n else 0)
mul-bit n true = omega arith
mul-bit n false = omega arith

slot_cases :
    (index : ℕ) (v : AccessVerdict) (held : Bool) (subs : Option (List ℕ))
    → (if held then record v { granted_mask = v.granted_mask + 2 ^ index } else elim subs [
      | none ↦ v
      | some run ↦ record {
        granted_mask = v.granted_mask + 2 ^ index;
        has_subs_mask = v.has_subs_mask + 2 ^ index;
        sub_bytes = v.sub_bytes ++ run;
      }
    ])
      ≡ added index v
          ((if held then plain else elim subs [ none ↦ nothing | some run ↦ with_subs run ]) ∷ [])
unfolding mask_of all_runs
slot_cases index v true subs =
    verdict_parts (omega (arith, mul-bit (2 ^ index) true))
      (omega (arith, mul-bit (2 ^ index) false)) (sym (append-nil v.sub_bytes))
slot_cases index v false none =
    verdict_parts (omega (arith, mul-bit (2 ^ index) false))
      (omega (arith, mul-bit (2 ^ index) false)) (sym (append-nil v.sub_bytes))
slot_cases index v false (some run) =
    verdict_parts (omega (arith, mul-bit (2 ^ index) true))
      (omega (arith, mul-bit (2 ^ index) true)) (ap (λ r. v.sub_bytes ++ r) (sym (append-nil run)))

judge_slot-added :
    (s : UserAccessState) (index required : ℕ) (v : AccessVerdict)
    → judge_slot s index required v ≡ added index v (found_at s required ∷ [])
unfolding judge_slot found_at
judge_slot-added s index required v =
    slot_cases index v (holds_in_grants s.grants required)
      (find_in_sub_grants s.sub_grants required)

shift_mask :
    (index bit rest : ℕ)
    → 2 ^ index * (bit + 2 * 0) + 2 ^ (index + 1) * rest ≡ 2 ^ index * (bit + 2 * rest)
shift_mask index bit rest =
    let p = 2 ^ index in
    let double : 2 ^ (index + 1) ≡ p + p = ap (λ n. 2 ^ n) (omega arith) ∙ two-pow-succ index in
    let twice : p * (2 * rest) ≡ p * (rest + rest) = ap (λ n. p * n) (omega arith) in
    let zeroed : p * (bit + 2 * 0) ≡ p * bit = ap (λ n. p * n) (omega arith) in
    let split : 2 ^ (index + 1) * rest ≡ p * rest + p * rest =
      ap (λ n. n * rest) double ∙ add-mul p p rest in
    omega (arith, zeroed, split, twice, mul-add p bit (2 * rest), mul-add p rest rest)

added-cons :
    (index : ℕ) (v : AccessVerdict) (f : Found) (founds : List Found)
    → added (index + 1) (added index v (f ∷ [])) founds ≡ added index v (f ∷ founds)
unfolding mask_of all_runs
added-cons index v f founds =
    verdict_parts
      (omega
        (arith, shift_mask index (if grants_access f then 1 else 0) (mask_of grants_access founds)))
      (omega
        (arith, shift_mask index (if carries_subs f then 1 else 0) (mask_of carries_subs founds)))
      (simp (append_assoc, append-nil))

judge_slots-added :
    (s : UserAccessState) (index : ℕ) (slots : List ℕ) (v : AccessVerdict)
    → judge_slots s index slots v ≡ added index v (filled_found s slots)
unfolding judge_slots filled_found mask_of all_runs
judge_slots-added s index [] v =
    verdict_parts (omega arith) (omega arith) (sym (append-nil v.sub_bytes))
judge_slots-added s index (required ∷ slots) v = elim (Bool-cases (required == 0)) [
  | inl done ↦ rw done (verdict_parts (omega arith) (omega arith) (sym (append-nil v.sub_bytes)))
  | inr more ↦ rw more (
      judge_slots-added s (index + 1) slots (judge_slot s index required v)
      ∙ ap (λ w. added (index + 1) w (filled_found s slots)) (judge_slot-added s index required v)
      ∙ added-cons index v (found_at s required) (filled_found s slots))
]

judge_slots-verdict_of :
    (s : UserAccessState) (slots : List ℕ)
    → judge_slots s 0 slots no_verdict ≡ verdict_of (filled_found s slots)
judge_slots-verdict_of s slots =
    judge_slots-added s 0 slots no_verdict ∙ verdict_parts (omega arith) (omega arith) refl

abbrev answer_of : AccessVerdict → Result AccessDenial AccessVerdict
answer_of v = if is_granted v then ok v else err no_access

answer_of-verdict_of :
    (founds : List Found)
    → answer_of (verdict_of founds)
      ≡ (if any_of grants_access founds then ok (verdict_of founds) else err no_access)
answer_of-verdict_of founds =
    let (zero_mask, some_bit) = mask_of-any_of grants_access founds in
    elim (Bool-cases (any_of grants_access founds)) [
      | inl found ↦ elim (Bool-cases (mask_of grants_access founds == 0)) [
        | inl empty ↦ absurd (cc (zero_mask empty))
        | inr filled ↦ rw (filled, found) refl
      ]
      | inr lost ↦ rw (some_bit lost, lost) refl
    ]

-- Identity comes first. The verdict on a user who exists and is active is the masks and the bytes
-- of what each filled slot finds, where one of them finds an access, and otherwise the refusal that
-- none does.
pub verdict-filled_found :
    (s : UserAccessState) (slots : List ℕ)
    → let founds = filled_found s slots in
      verdict s slots ≡ (
        if not s.found
        then err unknown_user
        else if not (eqb_ℤ s.status (pos 1))
        then err inactive_user
        else if any_of grants_access founds
        then ok (verdict_of founds)
        else err no_access)
unfolding verdict
verdict-filled_found s slots =
    let rest =
      ap answer_of (judge_slots-verdict_of s slots) ∙ answer_of-verdict_of (filled_found s slots) in
    ap
      (λ (r : Result AccessDenial AccessVerdict).
        if not s.found
        then err unknown_user
        else if not (eqb_ℤ s.status (pos 1))
        then err inactive_user
        else r)
      rest
