-- ===== src/Limiter/Blob.antt =====
-- src/limiter/credits_blob.rs: the stored form of the totals of the routes. Bytes are numbers below
-- 256; a `|` of bits that do not meet is written as a sum.
pub mod Fields
pub mod Entries
pub mod Reread
pub mod RoundTrip
use fareward.Common.{
  ℕ, zero, suc, ◌+◌, ◌-◌, ◌*◌, ◌/◌, ◌%◌, ◌^◌, ◌≡◌, Bool, true, false, ◌&&◌, Option, none, some,
  List, [], ◌∷◌, ◌++◌, leb, ltb, ◌==◌, not, if◌then◌else◌, length, take, drop, max,
}
use fareward.Common.Result.{Result, ok, err, ◌>>=◌, ◌>>◌, refuse_if}
use fareward.Limiter.Credits.{Credits, RoutedCredits, checked_add, zero_credits}

abbrev pub max_route_id : ℕ
max_route_id = 16383

pub data CreditsBlobError : Type 0 where
  invalid_route_id : ℕ → CreditsBlobError
  credits_overflow truncated non_canonical_order non_canonical_width non_canonical_zero :
      CreditsBlobError

abbrev pub BlobResult : Type 0 → Type 0
BlobResult A = Result CreditsBlobError A

unfoldable pub width_for : ℕ → BlobResult ℕ
width_for value =
    if leb value 0xff
    then ok 1
    else if leb value 0xffff
    then ok 2
    else if leb value 0xff_ffff
    then ok 3
    else if leb value 0xffff_ffff
    then ok 4
    else err credits_overflow

-- `u16::to_be_bytes` and `u32::to_be_bytes`
abbrev pub be_u16 : ℕ → List ℕ
be_u16 v = (v / 2 ^ 8 % 256) ∷ (v % 256) ∷ []

abbrev pub be_u32 : ℕ → List ℕ
be_u32 v = (v / 2 ^ 24 % 256) ∷ (v / 2 ^ 16 % 256) ∷ (v / 2 ^ 8 % 256) ∷ (v % 256) ∷ []

unfoldable pub write_uint : ℕ → ℕ → List ℕ
write_uint value width = drop (4 - width) (be_u32 (value % 2 ^ 32))

unfoldable pub read_uint_from : ℕ → List ℕ → ℕ
read_uint_from value [] = value
read_uint_from value (byte ∷ bytes) = read_uint_from (value * 2 ^ 8 + byte) bytes

unfoldable pub read_uint : List ℕ → ℕ
unfolding read_uint_from
read_uint bytes = read_uint_from 0 bytes

unfoldable pub encode_fields : ℕ → Credits → ℕ → List ℕ
unfolding write_uint
encode_fields route credits width =
    be_u16 (route * 2 ^ 2 + (width - 1))
    ++ (write_uint credits.cpu width ++ write_uint credits.inference width)

abbrev pub is_zero : Credits → Bool
is_zero c = c.cpu == 0 && c.inference == 0

-- One round of the loop of `encode`: what it appends.
unfoldable pub encode_route : ℕ → Credits → BlobResult (List ℕ)
unfolding width_for encode_fields
encode_route route credits =
    if ltb max_route_id route
    then err (invalid_route_id route)
    else if is_zero credits
    then ok []
    else (width_for (max credits.cpu credits.inference) >>= λ width.
        ok (encode_fields route credits width))

unfoldable pub encode : RoutedCredits → BlobResult (List ℕ)
unfolding encode_route
encode [] = ok []
encode ((route, credits) ∷ routes) = do
  entry ← encode_route route credits
  rest ← encode routes
  ok (entry ++ rest)

abbrev pub is_past : Option ℕ → ℕ → Bool
is_past none route = false
is_past (some previous) route = leb route previous

-- The checks on the values of an entry, and what is left of the blob.
unfoldable pub check_entry : ℕ → ℕ → Credits → List ℕ → BlobResult ((ℕ × Credits) × List ℕ)
unfolding width_for
check_entry route width credits rest = do
  refuse_if (is_zero credits) non_canonical_zero
  smallest ← width_for (max credits.cpu credits.inference)
  refuse_if (not (smallest == width)) non_canonical_width
  ok ((route, credits), rest)

unfoldable pub read_fields : Option ℕ → ℕ → ℕ → List ℕ → BlobResult ((ℕ × Credits) × List ℕ)
unfolding check_entry read_uint
read_fields previous route width bytes = do
  refuse_if (is_past previous route) non_canonical_order
  refuse_if (ltb (length bytes) (width * 2)) truncated
  check_entry route width
      (record {
        cpu = read_uint (take width bytes);
        inference = read_uint (take width (drop width bytes));
      })
      (drop width (drop width bytes))

-- One round of the loop of `decode` on what is left of the blob.
unfoldable pub read_entry : Option ℕ → List ℕ → BlobResult ((ℕ × Credits) × List ℕ)
unfolding read_fields
read_entry previous (high ∷ low ∷ bytes) =
    let header = high * 256 + low in
    read_fields previous (header / 2 ^ 2) (header % 2 ^ 2 + 1) bytes
read_entry previous bytes = err truncated

-- The routes come in ascending order, so that `insert` appends. The fuel is the length of the blob.
unfoldable pub decode_loop : ℕ → Option ℕ → List ℕ → BlobResult RoutedCredits
unfolding read_entry
decode_loop fuel previous [] = ok []
decode_loop zero previous (b ∷ bytes) = err truncated
decode_loop (suc fuel) previous (b ∷ bytes) = do
  (entry, rest) ← read_entry previous (b ∷ bytes)
  routes ← decode_loop fuel (some entry.0) rest
  ok (entry ∷ routes)

unfoldable pub decode : List ℕ → BlobResult RoutedCredits
unfolding decode_loop
decode bytes = decode_loop (length bytes) none bytes

-- `sum`, in the order of the routes.
unfoldable pub sum_from : Credits → RoutedCredits → BlobResult Credits
unfolding checked_add
sum_from total [] = ok total
sum_from total ((route, credits) ∷ routes) = elim (checked_add total credits) [
  | none ↦ err credits_overflow
  | some total' ↦ sum_from total' routes
]

unfoldable pub sum : RoutedCredits → BlobResult Credits
unfolding sum_from
sum routes = sum_from zero_credits routes
