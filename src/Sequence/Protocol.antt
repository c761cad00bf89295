-- ===== src/Sequence/Protocol.antt =====
-- src/sequence/protocol.rs: the payloads that reserve from a counter and that set one. The cursor is
-- what is left of the payload; the check for UTF-8 is a parameter.
pub mod Payloads
use fareward.Common.{
  ℕ, suc, ◌+◌, ◌-◌, ◌*◌, ◌/◌, ◌%◌, ◌^◌, ◌≤◌, ◌<◌, ◌≡◌, refl, Option, none, some, List, [], ◌∷◌,
  ◌++◌, leb, ltb, ◌==◌, if◌then◌else◌, length, take, drop, length-append, arith,
}
use fareward.Common.Bytes.{from_be, as_i64}
use fareward.Common.Int.{ℤ, pos, negsuc, ltb_ℤ}
use fareward.Common.Result.{Result, ok, err, ◌>>=◌, ◌>>◌, refuse_if, ok_or}
use Prim.Native.String.{String}

abbrev pub sequence_name_max : ℕ
sequence_name_max = 128

pub record ReserveRequest : Type 0 where
  pub name : String
  pub increment : ℕ

pub record SetRequest : Type 0 where
  pub name : String
  pub value : ℤ

pub data SequenceProtocolError : Type 0 where
  too_short empty_increment negative_value empty_name name_too_long non_utf8_name :
      SequenceProtocolError

abbrev pub take_bytes : ℕ → List ℕ → Option (List ℕ × List ℕ)
take_bytes count bytes =
    if ltb (length bytes) count then none else some (take count bytes, drop count bytes)

unfoldable pub cursor_u32 : List ℕ → Option (ℕ × List ℕ)
unfolding from_be
cursor_u32 bytes = elim (take_bytes 4 bytes) [
  | none ↦ none
  | some (front, rest) ↦ some (from_be 0 front, rest)
]

unfoldable pub cursor_i64 : List ℕ → Option (ℤ × List ℕ)
unfolding from_be
cursor_i64 bytes = elim (take_bytes 8 bytes) [
  | none ↦ none
  | some (front, rest) ↦ some (as_i64 (from_be 0 front), rest)
]

module _ (from_utf8 : List ℕ → Option String) where
  unfoldable pub parse_counter_name : List ℕ → Result SequenceProtocolError String
  parse_counter_name name_bytes = do
    refuse_if (length name_bytes == 0) empty_name
    refuse_if (ltb sequence_name_max (length name_bytes)) name_too_long
    ok_or (from_utf8 name_bytes) non_utf8_name

  unfoldable pub parse_set : List ℕ → Result SequenceProtocolError SetRequest
  unfolding cursor_i64 parse_counter_name
  parse_set payload = do
    (value, rest) ← ok_or (cursor_i64 payload) too_short
    refuse_if (ltb_ℤ value (pos 0)) negative_value
    name ← parse_counter_name rest
    ok (record { name = name; value = value })

  unfoldable pub parse_reserve : List ℕ → Result SequenceProtocolError ReserveRequest
  unfolding cursor_u32 parse_counter_name
  parse_reserve payload = do
    (increment, rest) ← ok_or (cursor_u32 payload) too_short
    refuse_if (increment == 0) empty_increment
    name ← parse_counter_name rest
    ok (record { name = name; increment = increment })
