-- ===== src/Bridge/Token/Channels.antt =====
-- src/bridge/token.rs: a token that is written is read as what it was written for.
use fareward.Common.{
  ℕ, ◌^◌, ◌≤◌, ◌<◌, ◌≡◌, ap, ◌∙◌, Option, some, List, [], ◌++◌, append_assoc, length, arith,
}
use fareward.Common.Int.{pos}
use fareward.Common.StringMap.{same_text_self}
use fareward.Common.Result.{ok}
use fareward.Bridge.Token.{
  append_groups, append_uvarint, encode_channel_token, decode_channel_token, check_channel, is_text,
}
use fareward.Bridge.Token.Varints.{read_uvarint-append_groups}
use Prim.Native.String.{String}

module _ (decode_base64 : String → Option (List ℕ)) (encode_base64 : List ℕ → String) where
  check_channel_passes :
      (t : String) (company user : ℕ) (tab_bytes : List ℕ)
      → length tab_bytes ≡ 6
      → 1 ≤ company
      → 1 ≤ user
      → company < 2 ^ 31
      → user < 2 ^ 31
      → encode_channel_token decode_base64 encode_base64
          (pos company)
          (pos user)
          (encode_base64 tab_bytes)
        ≡ some t
      → check_channel decode_base64 encode_base64 t company user tab_bytes
        ≡ ok (pos company, pos user, encode_base64 tab_bytes)
  unfolding check_channel is_text
  check_channel_passes t company user tab_bytes six c u a b written =
      ground (arith, six, c, u, a, b, written, same_text_self t)

  -- Where base64 gives the bytes of the tab and of the token back, a token that is written for
  -- identifiers of 32 bits and a tab is read as those three.
  pub decode-encode_channel_token :
      (t : String) (company user : ℕ) (tab : String) (tab_bytes : List ℕ)
      → company < 2 ^ 31
      → user < 2 ^ 31
      → decode_base64 tab ≡ some tab_bytes
      → encode_base64 tab_bytes ≡ tab
      → (let bytes = append_uvarint (append_uvarint [] company) user ++ tab_bytes in
          decode_base64 (encode_base64 bytes) ≡ some bytes)
      → encode_channel_token decode_base64 encode_base64 (pos company) (pos user) tab ≡ some t
      → decode_channel_token decode_base64 encode_base64 t ≡ ok (pos company, pos user, tab)
  unfolding decode_channel_token check_channel is_text encode_channel_token append_uvarint
  decode-encode_channel_token t company user tab tab_bytes a b e same_tab decoded h =
      let groups = append_groups 10 company ++ (append_groups 10 user ++ tab_bytes) in
      let six : length tab_bytes ≡ 6 = ground (arith, e, h) in
      let positive : (1 ≤ company) × (1 ≤ user) = ground (arith, e, h) in
      let written : t
          ≡ encode_base64 ((append_groups 10 company ++ append_groups 10 user) ++ tab_bytes) =
        ground (arith, e, h) in
      let read : decode_base64 t ≡ some groups =
        ap decode_base64 written
        ∙ decoded
        ∙ ap some (append_assoc (append_groups 10 company) (append_groups 10 user) tab_bytes) in
      let first = read_uvarint-append_groups company (append_groups 10 user ++ tab_bytes) a in
      let second = read_uvarint-append_groups user tab_bytes b in
      let checked : check_channel decode_base64 encode_base64 t company user tab_bytes
          ≡ ok (pos company, pos user, tab) =
        check_channel_passes t company user tab_bytes six positive.0 positive.1 a b (
          ap (encode_channel_token decode_base64 encode_base64 (pos company) (pos user)) same_tab
          ∙ h)
        ∙ ap (λ id. ok (pos company, pos user, id)) same_tab in
      rw (decode_channel_token, read, first, second) checked
