-- ===== src/Sequence/Protocol/Payloads.antt =====
-- src/sequence/protocol.rs: the payloads that a client writes are read back.
use fareward.Common.{ℕ, ◌^◌, ◌≤◌, ◌<◌, ◌≡◌, Option, some, List, ◌++◌, length, arith}
use fareward.Common.Bytes.{from_be, be_bytes}
use fareward.Common.Int.{pos}
use fareward.Common.Result.{ok}
use fareward.Sequence.Protocol.{
  cursor_u32, cursor_i64, parse_counter_name, parse_set, parse_reserve,
}
use Prim.Native.String.{String}

cursor_u32-be_bytes :
    (value : ℕ) (rest : List ℕ)
    → value < 2 ^ 32
    → cursor_u32 (be_bytes 4 value ++ rest) ≡ some (value, rest)
unfolding cursor_u32 from_be be_bytes
cursor_u32-be_bytes value rest h = ground (arith, h)

cursor_i64-be_bytes :
    (value : ℕ) (rest : List ℕ)
    → value < 2 ^ 63
    → cursor_i64 (be_bytes 8 value ++ rest) ≡ some (pos value, rest)
unfolding cursor_i64 from_be be_bytes
cursor_i64-be_bytes value rest h = ground (arith, h)

module _ (from_utf8 : List ℕ → Option String) (name_bytes : List ℕ) (name : String)
    (some_bytes : 1 ≤ length name_bytes) (few_bytes : length name_bytes ≤ 128)
    (valid : from_utf8 name_bytes ≡ some name) where
  counter_name : parse_counter_name from_utf8 name_bytes ≡ ok name
  unfolding parse_counter_name
  counter_name = ground (arith, some_bytes, few_bytes, valid)

  -- A payload of a positive increment of 32 bits and of the bytes of a name, at most 128 and valid
  -- UTF-8, is read as that increment and that name.
  pub parse_reserve-be_bytes :
      (increment : ℕ)
      → 1 ≤ increment
      → increment < 2 ^ 32
      → parse_reserve from_utf8 (be_bytes 4 increment ++ name_bytes)
        ≡ ok (record { name = name; increment = increment })
  unfolding parse_reserve
  parse_reserve-be_bytes increment positive fits =
      ground (arith, cursor_u32-be_bytes increment name_bytes fits, counter_name, positive)

  -- A payload of a value that is not negative in 64 bits and of the bytes of a name, at most 128 and
  -- valid UTF-8, is read as that value and that name.
  pub parse_set-be_bytes :
      (value : ℕ)
      → value < 2 ^ 63
      → parse_set from_utf8 (be_bytes 8 value ++ name_bytes)
        ≡ ok (record { name = name; value = pos value })
  unfolding parse_set
  parse_set-be_bytes value fits =
      ground (arith, cursor_i64-be_bytes value name_bytes fits, counter_name)
