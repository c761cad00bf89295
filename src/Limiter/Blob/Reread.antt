-- ===== src/Limiter/Blob/Reread.antt =====
-- An entry that is read was written: its bytes are those of its values.
use fareward.Common.{
  ℕ, ◌+◌, ◌-◌, ◌*◌, ◌/◌, ◌%◌, ◌^◌, ◌≤◌, ◌<◌, ◌≡◌, ap, sym, subst, false, Option, List, [], ◌∷◌,
  ◌++◌, append_assoc, length, take, drop, max, All, take-append-drop, arith,
}
use fareward.Common.Result.{ok}
use fareward.Limiter.Credits.{Credits}
use fareward.Common.{All-take, All-drop, length-take, length-drop}
use fareward.Limiter.Blob.{
  width_for, write_uint, read_uint, encode_fields, encode_route, is_zero, is_past, read_entry,
  max_route_id,
}
use fareward.Limiter.Blob.Fields.{IsWidth, IsByte, write_uint-read_uint}
use fareward.Limiter.Blob.Entries.{read_fields_inv}

abbrev pub Reread : Option ℕ → List ℕ → ℕ × Credits → List ℕ → Type 0
Reread previous bytes entry rest =
    (is_past previous entry.0 ≡ false)
    × (is_zero entry.1 ≡ false)
    × ((written : List ℕ) × (encode_route entry.0 entry.1 ≡ ok written) × (bytes ≡ written ++ rest))
    × All IsByte rest

-- The bytes of two fields, taken apart and put together.
two_fields :
    (w : ℕ) (bytes : List ℕ)
    → All IsByte bytes
    → IsWidth w
    → w * 2 ≤ length bytes
    → bytes
      ≡ write_uint (read_uint (take w bytes)) w
        ++ (write_uint (read_uint (take w (drop w bytes))) w ++ drop w (drop w bytes))
two_fields w bytes b h enough = sym (
    rw
      (
        back (take w bytes) (All-take IsByte w bytes b) (omega (arith, length-take w bytes)),
        back (take w (drop w bytes)) (All-take IsByte w (drop w bytes) (All-drop IsByte w bytes b))
            (omega (arith, length-take w (drop w bytes), length-drop w bytes)),
      )
      (rw (take-append-drop w (drop w bytes)) (take-append-drop w bytes)))
  where
    back : (xs : List ℕ) → All IsByte xs → length xs ≡ w → write_uint (read_uint xs) w ≡ xs
    back xs b e = rw (← e) (write_uint-read_uint xs b (rw e h))

header_back :
    (high low : ℕ)
    → high < 256
    → low < 256
    → let header = high * 256 + low in
      let v = header / 2 ^ 2 * 2 ^ 2 + (header % 2 ^ 2 + 1 - 1) in
      (v / 2 ^ 8 % 256 ≡ high) × (v % 256 ≡ low) × (header / 2 ^ 2 ≤ max_route_id)
header_back high low a b = omega arith

encode_route_ok :
    (route w : ℕ) (c : Credits)
    → route ≤ max_route_id
    → is_zero c ≡ false
    → width_for (max c.cpu c.inference) ≡ ok w
    → encode_route route c ≡ ok (encode_fields route c w)
unfolding encode_route
encode_route_ok route w c small z h = ground (arith, z, h)

pub read_entry-Reread :
    (previous : Option ℕ) (bytes rest : List ℕ) (entry : ℕ × Credits)
    → All IsByte bytes
    → read_entry previous bytes ≡ ok (entry, rest)
    → Reread previous bytes entry rest
unfolding read_entry encode_fields
read_entry-Reread previous [] rest entry b h = cc
read_entry-Reread previous (x ∷ []) rest entry b h = cc
read_entry-Reread previous (high ∷ low ∷ bytes) rest entry b h =
    let header = high * 256 + low in
    let w = header % 2 ^ 2 + 1 in
    let i = read_fields_inv previous (header / 2 ^ 2) w bytes rest entry h in
    let c : Credits = record {
      cpu = read_uint (take w bytes);
      inference = read_uint (take w (drop w bytes));
    } in
    let hb = header_back high low b.0 b.1.0 in
    let same : entry ≡ (header / 2 ^ 2, c) = λ j. (i.2 j, i.3 j) in
    subst (λ e. Reread previous (high ∷ low ∷ bytes) e rest) (sym same)
      (subst (Reread previous (high ∷ low ∷ bytes) (header / 2 ^ 2, c)) (sym i.4) (
        i.0,
        subst (λ x. is_zero x ≡ false) i.3 i.5,
        (
          encode_fields (header / 2 ^ 2) c w,
          encode_route_ok (header / 2 ^ 2) w c hb.2 (subst (λ x. is_zero x ≡ false) i.3 i.5)
              (subst (λ x. width_for (max x.cpu x.inference) ≡ ok w) i.3 i.6),
          rw
              (
                append_assoc (write_uint c.cpu w) (write_uint c.inference w)
                    (drop w (drop w bytes)),
                hb.0,
                hb.1,
              )
              (ap (λ t. high ∷ low ∷ t) (two_fields w bytes b.1.1 (omega arith) i.1)),
        ),
        All-drop IsByte w (drop w bytes) (All-drop IsByte w bytes b.1.1),
      ))
