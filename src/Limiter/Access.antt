-- ===== src/Limiter/Access.antt =====
-- src/limiter/access.rs: the accesses of a user, in two blobs of bytes, and the verdict on the
-- accesses that a request needs. An offset into a blob is the rest of the blob from there on.
pub mod Search
pub mod Runs
pub mod Slots
pub mod Width
use fareward.Common.{
  ℕ, zero, suc, ◌+◌, ◌-◌, ◌*◌, ◌/◌, ◌%◌, ◌^◌, Bool, true, false, not, ◌&&◌, Option, none, some,
  List, [], ◌∷◌, ◌++◌, leb, ltb, ◌==◌, if◌then◌else◌, length, drop,
}
use fareward.Common.Int.{ℤ, pos, ◌-ℤ◌, ltb_ℤ, leb_ℤ, eqb_ℤ}
use fareward.Common.Result.{Result, ok, err, ◌>>=◌, ◌>>◌, refuse_if}

pub data AccessDenial : Type 0 where
  no_access unknown_user inactive_user : AccessDenial

abbrev pub detail_code : AccessDenial → ℕ
detail_code no_access = 2
detail_code unknown_user = 3
detail_code inactive_user = 4

pub record AccessVerdict : Type 0 where
  pub granted_mask : ℕ
  pub has_subs_mask : ℕ
  pub sub_bytes : List ℕ

abbrev pub no_verdict : AccessVerdict
no_verdict = record { granted_mask = 0; has_subs_mask = 0; sub_bytes = [] }

abbrev pub is_granted : AccessVerdict → Bool
is_granted v = not (v.granted_mask == 0)

-- The identifier of an access, and the level.
abbrev pub unpack_grant : ℕ → ℕ × ℕ
unpack_grant word = (word / 2 ^ 2, word % 2 ^ 2 + 1)

-- The word at the front of some bytes. A shorter rest, where the source would panic, counts as zero.
unfoldable pub front_word : List ℕ → ℕ
front_word (high ∷ low ∷ bytes) = high * 256 + low
front_word bytes = 0

abbrev pub grant_at : List ℕ → ℕ → ℕ × ℕ
grant_at grants index = unpack_grant (front_word (drop (index * 2) grants))

-- The loop of the binary search. Each round narrows the range, so that its length is fuel enough.
unfoldable pub search_grants : ℕ → List ℕ → ℕ × ℕ → ℕ → ℕ → Bool
search_grants zero grants required low high = false
search_grants (suc fuel) grants required low high =
    let middle = (low + high) / 2 in
    let granted = grant_at grants middle in
    let upper = search_grants fuel grants required (middle + 1) high in
    let lower = search_grants fuel grants required low middle in
    if ltb low high
    then (if ltb granted.0 required.0
        then upper
        else if ltb required.0 granted.0
        then lower
        else leb required.1 granted.1)
    else false

unfoldable pub holds_in_grants : List ℕ → ℕ → Bool
unfolding search_grants
holds_in_grants grants required_grant =
    let count = length grants / 2 in
    search_grants count grants (unpack_grant required_grant) 0 count

-- The sub bytes at the front, up to the first without the bit that says that another follows.
unfoldable pub sub_run : List ℕ → List ℕ × List ℕ
sub_run [] = ([], [])
sub_run (byte ∷ bytes) =
    let (run, rest) = sub_run bytes in
    if ltb byte 0x80 then (byte ∷ [], bytes) else (byte ∷ run, rest)

unfoldable pub find_in_rest : ℕ → ℕ × ℕ → List ℕ → Option (List ℕ)
unfolding sub_run
find_in_rest (suc fuel) required (high ∷ low ∷ bytes) =
    let granted = unpack_grant (high * 256 + low) in
    let (run, rest) = sub_run bytes in
    let later = find_in_rest fuel required rest in
    if granted.0 == required.0
    then (if leb required.1 granted.1 then some run else none)
    else if ltb required.0 granted.0
    then none
    else later
find_in_rest fuel required bytes = none

-- The length of the blob is fuel enough, since an entry has a word of two bytes.
unfoldable pub find_in_sub_grants : List ℕ → ℕ → Option (List ℕ)
unfolding find_in_rest
find_in_sub_grants sub_grants required_grant =
    find_in_rest (length sub_grants) (unpack_grant required_grant) sub_grants

pub data GrantsError : Type 0 where
  odd_length mid_word no_sub_bytes mask_overflow no_sub_accesses malformed not_positive :
      GrantsError
  not_ascending : ℕ → GrantsError

abbrev pub Checked : Type 0
Checked = Result GrantsError (Unit {0})

unfoldable pub ascending_words : ℕ → List ℕ → Checked
ascending_words previous (high ∷ low ∷ bytes) =
    let id = (unpack_grant (high * 256 + low)).0 in
    let later = ascending_words id bytes in
    if leb id previous then err (not_ascending id) else later
ascending_words previous bytes = ok tt

unfoldable pub validate_grants : List ℕ → Checked
unfolding ascending_words
validate_grants grants =
    if not (length grants % 2 == 0) then err odd_length else ascending_words 0 grants

-- The inner loop: the mask of the sub accesses, in 16 bits, and the rest. Bits that do not meet
-- are added.
unfoldable pub sub_mask_from : ℕ → ℕ → List ℕ → Result GrantsError (ℕ × List ℕ)
sub_mask_from index mask [] = err no_sub_bytes
sub_mask_from index mask (byte ∷ bytes) =
    let mask' = mask + byte % 0x80 * 2 ^ (index * 7) % 2 ^ 16 in
    let later = sub_mask_from (index + 1) mask' bytes in
    if leb 16 (index * 7)
    then err mask_overflow
    else if ltb byte 0x80
    then ok (mask', bytes)
    else later

unfoldable pub check_sub_entry : ℕ → List ℕ → Result GrantsError (ℕ × List ℕ)
unfolding sub_mask_from
check_sub_entry previous (high ∷ low ∷ bytes) = do
  let id = (unpack_grant (high * 256 + low)).0
  refuse_if (leb id previous) (not_ascending id)
  (mask, rest) ← sub_mask_from 0 0 bytes
  refuse_if (mask == 0) no_sub_accesses
  ok (id, rest)
check_sub_entry previous bytes = err mid_word

unfoldable pub validate_sub_rest : ℕ → ℕ → List ℕ → Checked
unfolding check_sub_entry
validate_sub_rest fuel previous [] = ok tt
validate_sub_rest zero previous (byte ∷ bytes) = err mid_word
validate_sub_rest (suc fuel) previous (byte ∷ bytes) = do
  (id, rest) ← check_sub_entry previous (byte ∷ bytes)
  validate_sub_rest fuel id rest

unfoldable pub validate_sub_grants : List ℕ → Checked
unfolding validate_sub_rest
validate_sub_grants sub_grants = validate_sub_rest (length sub_grants) 0 sub_grants

-- `StoredUserAccess` of src/limiter/storage.rs
pub record StoredUserAccess : Type 0 where
  pub grants_blob : List ℕ
  pub sub_grants_blob : List ℕ
  pub status : ℤ

pub record UserAccessState : Type 0 where
  pub grants : List ℕ
  pub sub_grants : List ℕ
  pub status : ℤ
  pub found : Bool
  pub loaded_at : ℤ

unfoldable pub from_row : Option StoredUserAccess → ℤ → Result GrantsError UserAccessState
unfolding validate_grants validate_sub_grants
from_row none loaded_at =
    ok (record {
      grants = [];
      sub_grants = [];
      status = pos 0;
      found = false;
      loaded_at = loaded_at;
    })
from_row (some row) loaded_at = do
  validate_grants row.grants_blob
  validate_sub_grants row.sub_grants_blob
  ok (record {
    grants = row.grants_blob;
    sub_grants = row.sub_grants_blob;
    status = row.status;
    found = true;
    loaded_at = loaded_at;
  })

unfoldable pub is_fresh : UserAccessState → ℤ → ℤ → Bool
is_fresh s unix_seconds ttl_seconds =
    leb_ℤ s.loaded_at unix_seconds && leb_ℤ (unix_seconds -ℤ s.loaded_at) ttl_seconds

-- One slot of the loop of `verdict`.
unfoldable pub judge_slot : UserAccessState → ℕ → ℕ → AccessVerdict → AccessVerdict
unfolding holds_in_grants find_in_sub_grants
judge_slot s index required v =
    if holds_in_grants s.grants required
    then record v { granted_mask = v.granted_mask + 2 ^ index }
    else elim (find_in_sub_grants s.sub_grants required) [
      | none ↦ v
      | some run ↦ record {
        granted_mask = v.granted_mask + 2 ^ index;
        has_subs_mask = v.has_subs_mask + 2 ^ index;
        sub_bytes = v.sub_bytes ++ run;
      }
    ]

-- The slots up to the first zero.
unfoldable pub judge_slots : UserAccessState → ℕ → List ℕ → AccessVerdict → AccessVerdict
unfolding judge_slot
judge_slots s index [] v = v
judge_slots s index (required ∷ slots) v =
    let later = judge_slots s (index + 1) slots (judge_slot s index required v) in
    if required == 0 then v else later

unfoldable pub verdict : UserAccessState → List ℕ → Result AccessDenial AccessVerdict
unfolding judge_slots
verdict s required =
    if not s.found
    then err unknown_user
    else if not (eqb_ℤ s.status (pos 1))
    then err inactive_user
    else let v = judge_slots s 0 required no_verdict in if is_granted v then ok v else err no_access

pub record AccessInvalidation : Type 0 where
  pub company_id : ℤ
  pub user_id : ℤ

unfoldable pub check_invalidation :
    Option AccessInvalidation → Result GrantsError AccessInvalidation
check_invalidation none = err malformed
check_invalidation (some i) = if leb_ℤ i.company_id (pos 0) then err not_positive else ok i

-- `decode` is the codec of the colbin crate.
unfoldable pub parse_access_invalidation :
    (List ℕ → Option AccessInvalidation) → List ℕ → Result GrantsError AccessInvalidation
unfolding check_invalidation
parse_access_invalidation decode payload = check_invalidation (decode payload)
