-- ===== src/Limiter/Blob/Fields.antt =====
-- One entry of the blob: what is written reads back, and what reads back was written.
use fareward.Common.{
  ℕ, ◌^◌, ◌≤◌, ◌<◌, ◌≡◌, refl, ◌⊎◌, inl, inr, false, Option, List, [], ◌∷◌, ◌++◌, length, take,
  drop, max, All, length-append, take-append, drop-append, arith,
}
use fareward.Common.Result.{ok}
use fareward.Limiter.Credits.{Credits}
use fareward.Limiter.Blob.{
  width_for, write_uint, read_uint, is_zero, is_past, check_entry, read_fields,
}

-- The widths, each with the values that need it.
abbrev pub Width : ℕ → ℕ → Type 0
Width value w =
    ((w ≡ 1) × (value < 2 ^ 8))
    ⊎ ((w ≡ 2) × (2 ^ 8 ≤ value) × (value < 2 ^ 16))
    ⊎ ((w ≡ 3) × (2 ^ 16 ≤ value) × (value < 2 ^ 24))
    ⊎ ((w ≡ 4) × (2 ^ 24 ≤ value) × (value < 2 ^ 32))

pub width_for-Width : (value w : ℕ) → width_for value ≡ ok w → Width value w
unfolding width_for
width_for-Width value w h = ground arith

pub Width-width_for : (value w : ℕ) → Width value w → width_for value ≡ ok w
unfolding width_for
Width-width_for value w h = ground arith

take-append' : (w : ℕ) (xs ys : List ℕ) → length xs ≡ w → take w (xs ++ ys) ≡ xs
take-append' w xs ys e = rw (← e) (take-append xs ys)

drop-append' : (w : ℕ) (xs ys : List ℕ) → length xs ≡ w → drop w (xs ++ ys) ≡ ys
drop-append' w xs ys e = rw (← e) (drop-append xs ys)

abbrev pub IsByte : ℕ → Type 0
IsByte b = b < 256

abbrev pub IsWidth : ℕ → Type 0
IsWidth w = (w ≡ 1) ⊎ (w ≡ 2) ⊎ (w ≡ 3) ⊎ (w ≡ 4)

pub length-write_uint : (value w : ℕ) → IsWidth w → length (write_uint value w) ≡ w
unfolding write_uint
length-write_uint value w (inl e) = rw e refl
length-write_uint value w (inr (inl e)) = rw e refl
length-write_uint value w (inr (inr (inl e))) = rw e refl
length-write_uint value w (inr (inr (inr e))) = rw e refl

abbrev pub Fits : ℕ → ℕ → Type 0
Fits value w =
    ((w ≡ 1) × (value < 2 ^ 8))
    ⊎ ((w ≡ 2) × (value < 2 ^ 16))
    ⊎ ((w ≡ 3) × (value < 2 ^ 24))
    ⊎ ((w ≡ 4) × (value < 2 ^ 32))

pub read_uint-write_uint : (value w : ℕ) → Fits value w → read_uint (write_uint value w) ≡ value
unfolding read_uint write_uint
read_uint-write_uint value w (inl (e, h)) = rw e (omega arith)
read_uint-write_uint value w (inr (inl (e, h))) = rw e (omega arith)
read_uint-write_uint value w (inr (inr (inl (e, h)))) = rw e (omega arith)
read_uint-write_uint value w (inr (inr (inr (e, h)))) = rw e (omega arith)

-- What is read of bytes is below the power of their number, and is written as them.
pub write_uint-read_uint :
    (bytes : List ℕ)
    → All IsByte bytes
    → IsWidth (length bytes)
    → write_uint (read_uint bytes) (length bytes) ≡ bytes
unfolding read_uint write_uint
write_uint-read_uint [] b h = absurd (omega (arith, h))
write_uint-read_uint (x ∷ []) b h = ground (arith, b)
write_uint-read_uint (x ∷ y ∷ []) b h = ground (arith, b)
write_uint-read_uint (x ∷ y ∷ z ∷ []) b h = ground (arith, b)
write_uint-read_uint (x ∷ y ∷ z ∷ u ∷ []) b h = ground (arith, b)
write_uint-read_uint (x ∷ y ∷ z ∷ u ∷ v ∷ bytes) b h = absurd (omega (arith, h))

pub check_entry_ok :
    (route w : ℕ) (c : Credits) (rest : List ℕ)
    → is_zero c ≡ false
    → Width (max c.cpu c.inference) w
    → check_entry route w c rest ≡ ok ((route, c), rest)
unfolding check_entry
check_entry_ok route w c rest z h = ground (arith, z, Width-width_for (max c.cpu c.inference) w h)

pub read_fields-append :
    (previous : Option ℕ) (route w : ℕ) (xs ys rest : List ℕ)
    → is_past previous route ≡ false
    → length xs ≡ w
    → length ys ≡ w
    → read_fields previous route w (xs ++ (ys ++ rest))
      ≡ check_entry route w (record { cpu = read_uint xs; inference = read_uint ys }) rest
unfolding read_fields
read_fields-append previous route w xs ys rest p e f = ground (
  arith,
  p,
  length-append {0} xs (ys ++ rest),
  length-append {0} ys rest,
  take-append' w xs (ys ++ rest) e,
  drop-append' w xs (ys ++ rest) e,
  take-append' w ys rest f,
  drop-append' w ys rest f,
)
