-- ===== src/Tests/Tokens.antt =====
-- src/bridge/token.rs: the token of one tab, with base64url at the texts that it needs.
use fareward.Common.{
  ℕ, ◌≡◌, refl, Option, some, none, List, [], ◌∷◌, length, ◌==◌, if◌then◌else◌, arith,
}
use fareward.Common.Int.{pos}
use fareward.Common.StringMap.{same_text}
use fareward.Common.Result.{ok}
use fareward.Bridge.Token.{encode_channel_token, decode_channel_token, append_uvarint}
use fareward.Bridge.Token.Channels.{decode-encode_channel_token}
use Prim.Native.String.{String}

abbrev tab_bytes : List ℕ
tab_bytes = 0 ∷ 0 ∷ 0 ∷ 0 ∷ 0 ∷ 0 ∷ []

-- The company 7 and the user 300, which takes two bytes.
abbrev token_bytes : List ℕ
token_bytes = 7 ∷ 0xAC ∷ 2 ∷ tab_bytes

unfoldable decode_base64 : String → Option (List ℕ)
unfolding same_text
decode_base64 s =
    if same_text s "AAAAAAAA"
    then some tab_bytes
    else if same_text s "B6wCAAAAAAAA"
    then some token_bytes
    else none

abbrev encode_base64 : List ℕ → String
encode_base64 bytes = if length bytes == 6 then "AAAAAAAA" else "B6wCAAAAAAAA"

encoded_run :
    encode_channel_token decode_base64 encode_base64 (pos 7) (pos 300) "AAAAAAAA"
    ≡ some "B6wCAAAAAAAA"
unfolding encode_channel_token decode_base64
encoded_run = refl

decode-encode_channel_token_example :
    decode_channel_token decode_base64 encode_base64 "B6wCAAAAAAAA"
    ≡ ok (pos 7, pos 300, "AAAAAAAA")
unfolding decode_base64 append_uvarint
decode-encode_channel_token_example =
    decode-encode_channel_token decode_base64 encode_base64 "B6wCAAAAAAAA" 7 300 "AAAAAAAA"
      tab_bytes (omega arith) (omega arith) refl refl refl encoded_run

decoded_run :
    decode_channel_token decode_base64 encode_base64 "B6wCAAAAAAAA"
    ≡ ok (pos 7, pos 300, "AAAAAAAA")
unfolding decode_channel_token decode_base64
decoded_run = refl
