-- ===== src/Common/Int.antt =====
-- Signed integers over the native numbers, under the library's names (its ℤ stands on the unary
-- ℕ), and the 64-bit ones among them with the checked operations of `i64`.
use fareward.Common.Tests.{ltb, leb, if◌then◌else◌}
use Prim.Native.Nat.{ℕ, suc, ◌+◌, ◌-◌, ◌^◌, ◌≤◌}
use mathlib.Core.Path.{◌≡◌, refl, ap}
use mathlib.Core.Logic.{◌⊎◌}
use mathlib.Core.Bool.{Bool, ◌&&◌}
use mathlib.Core.Option.{Option, none, some}
use native.Mathlib.Omega.{arith}

-- `negsuc n` is -(n + 1).
pub data ℤ : Type 0 where
  pos : ℕ → ℤ
  negsuc : ℕ → ℤ

abbrev pub pos_part : ℤ → ℕ
pos_part (pos n) = n
pos_part (negsuc n) = 0

abbrev pub neg_part : ℤ → ℕ
neg_part (pos n) = 0
neg_part (negsuc n) = suc n

-- a - b, as an integer.
abbrev pub sub_ℕ : ℕ → ℕ → ℤ
sub_ℕ a b = if leb b a then pos (a - b) else negsuc (b - a - 1)

infixl 65 ◌+ℤ◌ ◌-ℤ◌
infix 50 ◌≤ℤ◌ ◌<ℤ◌
unfoldable pub ◌+ℤ◌ : ℤ → ℤ → ℤ
a +ℤ b = sub_ℕ (pos_part a + pos_part b) (neg_part a + neg_part b)

unfoldable pub ◌-ℤ◌ : ℤ → ℤ → ℤ
a -ℤ b = sub_ℕ (pos_part a + neg_part b) (neg_part a + pos_part b)

abbrev pub ◌≤ℤ◌ : ℤ → ℤ → Type 0
a ≤ℤ b = pos_part a + neg_part b ≤ pos_part b + neg_part a

abbrev pub ◌<ℤ◌ : ℤ → ℤ → Type 0
a <ℤ b = suc (pos_part a + neg_part b) ≤ pos_part b + neg_part a

abbrev pub ltb_ℤ : ℤ → ℤ → Bool
ltb_ℤ a b = ltb (pos_part a + neg_part b) (pos_part b + neg_part a)

abbrev pub leb_ℤ : ℤ → ℤ → Bool
leb_ℤ a b = leb (pos_part a + neg_part b) (pos_part b + neg_part a)

-- One lemma for each operation lets `omega` work with the operations shut.
pub +ℤ_parts :
    (a b : ℤ)
    → pos_part (a +ℤ b) + neg_part a + neg_part b ≡ neg_part (a +ℤ b) + pos_part a + pos_part b
unfolding ◌+ℤ◌
+ℤ_parts a b = ground arith

pub -ℤ_parts :
    (a b : ℤ)
    → pos_part (a -ℤ b) + neg_part a + pos_part b ≡ neg_part (a -ℤ b) + pos_part a + neg_part b
unfolding ◌-ℤ◌
-ℤ_parts a b = ground arith

pub eq_of_parts : (a b : ℤ) → pos_part a + neg_part b ≡ pos_part b + neg_part a → a ≡ b
eq_of_parts a b h = ground arith

pub ruleset int_laws = (arith, +ℤ_parts, -ℤ_parts, eq_of_parts)

-- The ends of `i64`.
abbrev pub i64_max : ℤ
i64_max = pos (2 ^ 63 - 1)

abbrev pub i64_min : ℤ
i64_min = negsuc (2 ^ 63 - 1)

abbrev pub IsI64 : ℤ → Type 0
IsI64 a = (i64_min ≤ℤ a) × (a ≤ℤ i64_max)

-- `i64::checked_add` and `i64::checked_sub`, from the exact result.
unfoldable pub checked_i64 : ℤ → Option ℤ
checked_i64 a = if leb_ℤ i64_min a && leb_ℤ a i64_max then some a else none

-- The result of an `i64` addition that wraps: the sum of two values of the type is at most one
-- modulus away from it.
unfoldable pub wrap_i64 : ℤ → ℤ
wrap_i64 a =
    if leb_ℤ i64_min a
    then (if leb_ℤ a i64_max then a else a -ℤ pos (2 ^ 64))
    else a +ℤ pos (2 ^ 64)

pub checked_i64-cases : (a : ℤ) → (checked_i64 a ≡ none) ⊎ ((checked_i64 a ≡ some a) × IsI64 a)
unfolding checked_i64
checked_i64-cases a = ground arith

pub checked_i64_in : (a : ℤ) → IsI64 a → checked_i64 a ≡ some a
unfolding checked_i64
checked_i64_in a h = ground arith

pub wrap_i64_in : (a : ℤ) → IsI64 a → wrap_i64 a ≡ a
unfolding wrap_i64
wrap_i64_in a h = ground arith

abbrev pub eqb_ℤ : ℤ → ℤ → Bool
eqb_ℤ a b = leb_ℤ a b && leb_ℤ b a

pub checked_i64-i64_max : checked_i64 i64_max ≡ some i64_max
unfolding checked_i64
checked_i64-i64_max = refl

pub wrap_i64-i64_max : wrap_i64 (i64_max +ℤ pos 1) ≡ i64_min
unfolding wrap_i64 ◌+ℤ◌ ◌-ℤ◌
wrap_i64-i64_max = refl

-- What `omega` reads of an equation between integers.
pub eq_parts : {a b : ℤ} → a ≡ b → (pos_part a ≡ pos_part b) × (neg_part a ≡ neg_part b)
eq_parts e = (ap pos_part e, ap neg_part e)

-- What `a.checked_sub(b)` answers is the way from `b` to `a`.
pub checked_sub-cancel : (a b : ℤ) {d : ℤ} → checked_i64 (a -ℤ b) ≡ some d → b +ℤ d ≡ a
checked_sub-cancel a b {d} h =
    ground (arith, checked_i64-cases (a -ℤ b), -ℤ_parts a b, +ℤ_parts b d, eq_of_parts (b +ℤ d) a)
