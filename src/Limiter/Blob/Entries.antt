-- ===== src/Limiter/Blob/Entries.antt =====
-- One round of each loop: an entry that is written reads back, with the rest of the blob.
use fareward.Common.{
  ℕ, suc, ◌+◌, ◌-◌, ◌*◌, ◌/◌, ◌%◌, ◌≤◌, ◌≡◌, refl, sym, ◌⊎◌, inl, inr, true, false, Option, none,
  some, List, [], ◌∷◌, ◌++◌, append_assoc, if◌then◌else◌, length, take, drop, max, arith,
  Bool-cases,
}
use fareward.Common.Result.{ok, ◌>>=◌, ok-injective, >>=-eq-ok}
use fareward.Limiter.Credits.{Credits, RoutedCredits}
use fareward.Limiter.Blob.{
  BlobResult, width_for, write_uint, read_uint, encode_fields, encode_route, is_zero, is_past,
  check_entry, read_fields, read_entry, max_route_id, decode_loop,
}
use fareward.Limiter.Blob.Fields.{
  Width, IsWidth, width_for-Width, check_entry_ok, read_fields-append, length-write_uint,
  read_uint-write_uint,
}

-- The keys of a `BTreeMap` ascend.
abbrev pub IsAscending : Option ℕ → RoutedCredits → Type 0
IsAscending previous [] = Unit {0}
IsAscending previous ((route, c) ∷ routes) =
    (is_past previous route ≡ false) × IsAscending (some route) routes

unfoldable pub drop_zeros : RoutedCredits → RoutedCredits
drop_zeros [] = []
drop_zeros ((route, c) ∷ routes) =
    let rest = drop_zeros routes in if is_zero c then rest else (route, c) ∷ rest

pub IsAscending-lower :
    (previous : Option ℕ) (route : ℕ) (routes : RoutedCredits)
    → is_past previous route ≡ false
    → IsAscending (some route) routes
    → IsAscending previous routes
IsAscending-lower previous route [] h a = tt
IsAscending-lower none route ((r, c) ∷ routes) h a = (refl, a.1)
IsAscending-lower (some p) route ((r, c) ∷ routes) h a = (ground arith, a.1)

abbrev pub Written : ℕ → Credits → List ℕ → Type 0
Written route c bytes =
    ((is_zero c ≡ true) × (bytes ≡ []))
    ⊎ ((is_zero c ≡ false)
        × ((w : ℕ) × (route ≤ max_route_id)
            × Width (max c.cpu c.inference) w
            × (bytes ≡ encode_fields route c w)))

pub encode_route-Written :
    (route : ℕ) (c : Credits) (bytes : List ℕ)
    → encode_route route c ≡ ok bytes
    → Written route c bytes
unfolding encode_route
encode_route-Written route c bytes h = elim (Bool-cases (is_zero c)) [
  | inl z ↦ inl (z, ground (arith, z))
  | inr z ↦
      inr
        (z, go (>>=-eq-ok (width_for (max c.cpu c.inference)) _ {last = bytes} (ground (arith, z))))
]
  where
    go :
        (w : ℕ) × (width_for (max c.cpu c.inference) ≡ ok w)
          × (◌≡◌ {A = BlobResult (List ℕ)} (ok (encode_fields route c w)) (ok bytes))
        → (w : ℕ) × (route ≤ max_route_id)
          × Width (max c.cpu c.inference) w
          × (bytes ≡ encode_fields route c w)
    go (w, e, f) = (w, ground arith, width_for-Width _ w e, sym (ok-injective f))

pub read_entry-encode_fields :
    (previous : Option ℕ) (route w : ℕ) (c : Credits) (rest : List ℕ)
    → is_past previous route ≡ false
    → is_zero c ≡ false
    → route ≤ max_route_id
    → Width (max c.cpu c.inference) w
    → read_entry previous (encode_fields route c w ++ rest) ≡ ok ((route, c), rest)
unfolding read_entry encode_fields
read_entry-encode_fields previous route w c rest p z small h =
    rw (id_back, width_back, append_assoc (write_uint c.cpu w) (write_uint c.inference w) rest)
      (rw
        (read_fields-append previous route w (write_uint c.cpu w) (write_uint c.inference w) rest p
          (length-write_uint c.cpu w one_to_four) (length-write_uint c.inference w one_to_four))
        (rw
          (
            read_uint-write_uint c.cpu w (omega (arith, h)),
            read_uint-write_uint c.inference w (omega (arith, h)),
          )
          (check_entry_ok route w c rest z h)))
  where
    one_to_four : IsWidth w
    one_to_four = omega (arith, h)

    header : ℕ
    header = (route * 4 + (w - 1)) / 256 % 256 * 256 + (route * 4 + (w - 1)) % 256

    id_back : header / 4 ≡ route
    id_back = omega (arith, small, h)

    width_back : header % 4 + 1 ≡ w
    width_back = omega (arith, small, h)

pub decode_loop-step :
    (f : ℕ) (previous : Option ℕ) (bytes rest : List ℕ) (entry : ℕ × Credits)
    → read_entry previous bytes ≡ ok (entry, rest)
    → decode_loop (suc f) previous bytes
      ≡ (decode_loop f (some entry.0) rest >>= λ routes. ok (entry ∷ routes))
unfolding decode_loop read_entry
decode_loop-step f previous [] rest entry e = cc
decode_loop-step f previous (b ∷ bytes) rest entry e = rw (e, decode_loop) refl

pub read_fields_inv :
    (previous : Option ℕ) (route w : ℕ) (bytes rest : List ℕ) (entry : ℕ × Credits)
    → read_fields previous route w bytes ≡ ok (entry, rest)
    → (is_past previous route ≡ false)
      × (w * 2 ≤ length bytes)
      × (entry.0 ≡ route)
      × (entry.1 ≡ record {
        cpu = read_uint (take w bytes);
        inference = read_uint (take w (drop w bytes));
      })
      × (rest ≡ drop w (drop w bytes))
      × (is_zero entry.1 ≡ false)
      × (width_for (max entry.1.cpu entry.1.inference) ≡ ok w)
unfolding read_fields check_entry
read_fields_inv previous route w bytes rest entry h = ground arith
