-- ===== src/Bridge/Token.antt =====
-- src/bridge/token.rs: the token that names one tab of a browser. The two directions of unpadded
-- base64url, of the base64 crate, are parameters.
mod Varints
pub mod Channels
use fareward.Common.{
  ℕ, zero, suc, ◌+◌, ◌-◌, ◌*◌, ◌/◌, ◌%◌, ◌^◌, Bool, true, false, ◌||◌, not, Option, none, some,
  List, [], ◌∷◌, ◌++◌, leb, ltb, if◌then◌else◌, ◌==◌, length,
}
use fareward.Common.Int.{ℤ, pos, pos_part, leb_ℤ}
use fareward.Common.StringMap.{same_text}
use fareward.Common.Result.{Result, ok, err, ◌>>=◌, ◌>>◌, refuse_if, ok_or}
use Prim.Native.String.{String}

pub data TokenError : Type 0 where
  channel_base64 channel_company_id channel_user_id channel_tab_id channel_range
        channel_not_canonical :
      TokenError

abbrev pub tab_random_bytes : ℕ
tab_random_bytes = 6

-- The value, and the bytes behind it. Bits that do not meet are added.
unfoldable pub read_uvarint : ℕ → ℕ → List ℕ → Option (ℕ × List ℕ)
read_uvarint value shift [] = none
read_uvarint value shift (byte ∷ bytes) =
    let value' = value + byte % 0x80 * 2 ^ shift % 2 ^ 64 in
    let more = read_uvarint value' (shift + 7) bytes in
    if ltb 63 shift then none else if ltb (byte % 0x100) 0x80 then some (value', bytes) else more

-- A value of 64 bits has at most ten groups of seven.
unfoldable pub append_groups : ℕ → ℕ → List ℕ
append_groups zero value = []
append_groups (suc fuel) value =
    let rest = append_groups fuel (value / 2 ^ 7) in
    if leb 0x80 value then (value % 0x80 + 0x80) ∷ rest else value ∷ []

unfoldable pub append_uvarint : List ℕ → ℕ → List ℕ
unfolding append_groups
append_uvarint output value = output ++ append_groups 10 value

abbrev pub is_out_of_range : ℕ → Bool
is_out_of_range value = value == 0 || ltb (2 ^ 31 - 1) value

-- `as_deref() != Some(channel_token)`
unfoldable pub is_text : Option String → String → Bool
unfolding same_text
is_text none t = false
is_text (some s) t = same_text s t

module _ (decode_base64 : String → Option (List ℕ)) (encode_base64 : List ℕ → String) where
  unfoldable pub encode_channel_token : ℤ → ℤ → String → Option String
  unfolding append_uvarint
  encode_channel_token company_id user_id tab_id = elim (decode_base64 tab_id) [
    | none ↦ none
    | some tab_bytes ↦
        if not (length tab_bytes == tab_random_bytes)
          || leb_ℤ company_id (pos 0)
          || leb_ℤ user_id (pos 0)
        then none
        else some (
            encode_base64 (
              append_uvarint (append_uvarint [] (pos_part company_id)) (pos_part user_id)
              ++ tab_bytes))
  ]

  -- The identifiers and the tab, from the numbers read.
  unfoldable pub check_channel : String → ℕ → ℕ → List ℕ → Result TokenError (ℤ × ℤ × String)
  unfolding encode_channel_token is_text
  check_channel channel_token company user tab_bytes = do
    refuse_if (not (length tab_bytes == tab_random_bytes)) channel_tab_id
    refuse_if (is_out_of_range company || is_out_of_range user) channel_range
    let tab_id = encode_base64 tab_bytes
    refuse_if (not (is_text (encode_channel_token (pos company) (pos user) tab_id) channel_token))
        channel_not_canonical
    ok (pos company, pos user, tab_id)

  unfoldable pub decode_channel_token : String → Result TokenError (ℤ × ℤ × String)
  unfolding read_uvarint check_channel
  decode_channel_token channel_token = do
    bytes ← ok_or (decode_base64 channel_token) channel_base64
    (company, rest) ← ok_or (read_uvarint 0 0 bytes) channel_company_id
    (user, tab_bytes) ← ok_or (read_uvarint 0 0 rest) channel_user_id
    check_channel channel_token company user tab_bytes
