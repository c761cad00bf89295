-- ===== src/Tests/Accesses.antt =====
-- src/limiter/access.rs: the theorems at a stored user.
use fareward.Common.{ℕ, ◌*◌, ◌≤◌, some, ◌≡◌, refl, true, [], ◌∷◌, List, length, if◌then◌else◌}
use fareward.Common.Int.{pos}
use fareward.Common.Result.{ok, err}
use fareward.Limiter.Access.{
  unpack_grant, holds_in_grants, validate_grants, find_in_sub_grants, validate_sub_grants,
  StoredUserAccess, AccessVerdict, from_row, UserAccessState, verdict, front_word, no_access,
}
use fareward.Limiter.Access.Search.{scan_words, holds_in_grants-scan_words}
use fareward.Limiter.Access.Width.{verdict-sub_bytes}
use fareward.Limiter.Access.Runs.{scan_runs, find_in_sub_grants-scan_runs}
use fareward.Limiter.Access.Slots.{
  filled_found, verdict_of, verdict-filled_found, any_of, grants_access,
}

-- The accesses 7, 8, 14 and 15, on levels 4, 4, 1 and 1.
abbrev four_grants : List ℕ
four_grants = 0x00 ∷ 0x1F ∷ 0x00 ∷ 0x23 ∷ 0x00 ∷ 0x38 ∷ 0x00 ∷ 0x3C ∷ []

-- The accesses 10 and 16, with one sub byte and two.
abbrev two_runs : List ℕ
two_runs = 0x00 ∷ 0x29 ∷ 0x06 ∷ 0x00 ∷ 0x43 ∷ 0x81 ∷ 0x20 ∷ []

abbrev user : UserAccessState
user = record {
  grants = four_grants;
  sub_grants = two_runs;
  status = pos 1;
  found = true;
  loaded_at = pos 1000;
}

holds_in_grants-scan_words_example :
    holds_in_grants four_grants 0x22 ≡ scan_words four_grants (unpack_grant 0x22)
unfolding validate_grants
holds_in_grants-scan_words_example = holds_in_grants-scan_words four_grants 0x22 refl

find_in_sub_grants-scan_runs_example :
    find_in_sub_grants two_runs 0x41 ≡ scan_runs (length two_runs) (unpack_grant 0x41) two_runs
unfolding validate_sub_grants
find_in_sub_grants-scan_runs_example = find_in_sub_grants-scan_runs two_runs 0x41 refl

verdict-filled_found_example : verdict user (0x22 ∷ 0x41 ∷ 0x50 ∷ []) ≡ (
    if any_of grants_access (filled_found user (0x22 ∷ 0x41 ∷ 0x50 ∷ []))
    then ok (verdict_of (filled_found user (0x22 ∷ 0x41 ∷ 0x50 ∷ [])))
    else err no_access)
verdict-filled_found_example = verdict-filled_found user (0x22 ∷ 0x41 ∷ 0x50 ∷ [])

user_verdict :
    verdict user (0x22 ∷ 0x41 ∷ 0x50 ∷ 0 ∷ 0x22 ∷ [])
    ≡ ok (record { granted_mask = 3; has_subs_mask = 2; sub_bytes = 0x81 ∷ 0x20 ∷ [] })
unfolding verdict front_word
user_verdict = refl

-- The accesses 1 to 4, each with three sub bytes.
abbrev wide_runs : List ℕ
wide_runs =
    0x00 ∷ 0x04 ∷ 0x81 ∷ 0x80 ∷ 0x01 ∷ 0x00 ∷ 0x08 ∷ 0x81 ∷ 0x80 ∷ 0x01 ∷ 0x00 ∷ 0x0C ∷ 0x81 ∷ 0x80
    ∷ 0x01 ∷ 0x00 ∷ 0x10 ∷ 0x81 ∷ 0x80 ∷ 0x01 ∷ []

abbrev wide_row : StoredUserAccess
wide_row = record { grants_blob = []; sub_grants_blob = wide_runs; status = pos 1 }

abbrev wide_user : UserAccessState
wide_user = record {
  grants = [];
  sub_grants = wide_runs;
  status = pos 1;
  found = true;
  loaded_at = pos 0;
}

abbrev wide_verdict : AccessVerdict
wide_verdict = record {
  granted_mask = 15;
  has_subs_mask = 15;
  sub_bytes =
      0x81 ∷ 0x80 ∷ 0x01 ∷ 0x81 ∷ 0x80 ∷ 0x01 ∷ 0x81 ∷ 0x80 ∷ 0x01 ∷ 0x81 ∷ 0x80 ∷ 0x01 ∷ [];
}

abbrev wide_slots : List ℕ
wide_slots = 0x04 ∷ 0x08 ∷ 0x0C ∷ 0x10 ∷ []

verdict-sub_bytes_example : length wide_verdict.sub_bytes ≤ 3 * length wide_slots
unfolding from_row verdict
verdict-sub_bytes_example =
    verdict-sub_bytes (some wide_row) (pos 0) wide_user wide_slots wide_verdict refl refl
