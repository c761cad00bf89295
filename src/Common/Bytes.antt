-- ===== src/Common/Bytes.antt =====
-- The integers of a wire format, the highest byte first: `from_be_bytes` and `to_be_bytes`.
use Prim.Native.Nat.{ℕ, zero, suc, ◌+◌, ◌-◌, ◌*◌, ◌/◌, ◌%◌, ◌^◌, ◌<◌}
use mathlib.Core.Path.{◌≡◌}
use mathlib.Core.List.{List, [], ◌∷◌}
use native.Mathlib.Omega.{arith}
use fareward.Common.Tests.{ltb, if◌then◌else◌}
use fareward.Common.Int.{ℤ, pos, negsuc, IsI64}

unfoldable pub from_be : ℕ → List ℕ → ℕ
from_be value [] = value
from_be value (byte ∷ bytes) = from_be (value * 256 + byte) bytes

-- The bytes of a number, the highest first.
unfoldable pub be_bytes : ℕ → ℕ → List ℕ
be_bytes zero value = []
be_bytes (suc n) value = value / 256 ^ n % 256 ∷ be_bytes n value

-- The sign is the highest bit.
abbrev pub as_i64 : ℕ → ℤ
as_i64 word = if ltb word (2 ^ 63) then pos word else negsuc (2 ^ 64 - 1 - word)

-- The word that holds a value of `i64`.
abbrev pub i64_word : ℤ → ℕ
i64_word (pos n) = n
i64_word (negsuc n) = 2 ^ 64 - 1 - n

pub as_i64-i64_word : (a : ℤ) → IsI64 a → as_i64 (i64_word a) ≡ a
as_i64-i64_word a h = ground (arith, h)

pub i64_word-lt : (a : ℤ) → IsI64 a → i64_word a < 2 ^ 64
i64_word-lt a h = ground (arith, h)

pub from_be-be_bytes_2 : (n : ℕ) → n < 2 ^ 16 → from_be 0 (be_bytes 2 n) ≡ n
unfolding from_be be_bytes
from_be-be_bytes_2 n h = ground (arith, h)

pub from_be-be_bytes_8 : (n : ℕ) → n < 2 ^ 64 → from_be 0 (be_bytes 8 n) ≡ n
unfolding from_be be_bytes
from_be-be_bytes_8 n h = ground (arith, h)
