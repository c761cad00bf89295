-- ===== src/Limiter/Blob/RoundTrip.antt =====
-- Reading undoes writing, and writing undoes reading: whole blobs.
use fareward.Common.{
  ℕ, zero, suc, ◌+◌, ◌≤◌, ◌≡◌, refl, ap, sym, ◌∙◌, subst, inl, inr, false, Option, none, some, List,
  [], ◌∷◌, ◌++◌, length, max, All, length-append, arith,
}
use fareward.Common.Result.{ok, ok-injective, >>=-eq-ok}
use fareward.Limiter.Credits.{Credits, RoutedCredits}
use fareward.Limiter.Blob.{
  max_route_id, write_uint, encode_fields, encode_route, is_zero, is_past, read_entry, encode,
  decode, decode_loop,
}
use fareward.Limiter.Blob.Fields.{Width, IsByte}
use fareward.Limiter.Blob.Entries.{
  IsAscending, IsAscending-lower, drop_zeros, Written, encode_route-Written,
  read_entry-encode_fields, decode_loop-step,
}
use fareward.Limiter.Blob.Reread.{read_entry-Reread}

-- The bytes of an entry are more than none, so that they use up fuel.
length-encode_fields :
    (route w : ℕ) (c : Credits) (rest : List ℕ)
    → length rest + 2 ≤ length (encode_fields route c w ++ rest)
unfolding encode_fields
length-encode_fields route w c rest =
    omega (arith, length-append {0} (write_uint c.cpu w ++ write_uint c.inference w) rest)

-- One entry of the blob, with what the rest decodes to.
decode_loop-entry :
    (fuel : ℕ) (previous : Option ℕ) (route w : ℕ) (c : Credits) (rest : List ℕ)
    (routes : RoutedCredits)
    → is_past previous route ≡ false
    → is_zero c ≡ false
    → route ≤ max_route_id
    → Width (max c.cpu c.inference) w
    → length (encode_fields route c w ++ rest) ≤ fuel
    → ((f : ℕ) → length rest ≤ f → decode_loop f (some route) rest ≡ ok routes)
    → decode_loop fuel previous (encode_fields route c w ++ rest) ≡ ok ((route, c) ∷ routes)
decode_loop-entry zero previous route w c rest routes p z small h enough ih =
    absurd (omega (arith, length-encode_fields route w c rest))
decode_loop-entry (suc f) previous route w c rest routes p z small h enough ih =
    decode_loop-step f previous _ rest (route, c)
      (read_entry-encode_fields previous route w c rest p z small h)
    ∙ rw (ih f (omega (arith, length-encode_fields route w c rest))) refl

-- A loop with fuel for the length of a written blob reads back what was written.
decode_loop-encode :
    (routes : RoutedCredits) (fuel : ℕ) (previous : Option ℕ) (bytes : List ℕ)
    → length bytes ≤ fuel
    → IsAscending previous routes
    → encode routes ≡ ok bytes
    → decode_loop fuel previous bytes ≡ ok (drop_zeros routes)
unfolding encode drop_zeros decode_loop
decode_loop-encode [] fuel previous bytes enough a h =
    subst (λ b. decode_loop fuel previous b ≡ ok []) (ok-injective h) refl
decode_loop-encode ((route, c) ∷ routes) fuel previous bytes enough a h =
    let (written, e, h') = >>=-eq-ok (encode_route route c) _ h in
    let (rest, f, g) = >>=-eq-ok (encode routes) _ h' in
    subst (λ b. decode_loop fuel previous b ≡ ok (drop_zeros ((route, c) ∷ routes)))
      (ok-injective g)
      (go written rest (encode_route-Written route c written e)
        (subst (λ b. length b ≤ fuel) (sym (ok-injective g)) enough)
        (λ f' previous' enough' a'. decode_loop-encode routes f' previous' rest enough' a' f))
  where
    go :
        (written rest : List ℕ)
        → Written route c written
        → length (written ++ rest) ≤ fuel
        → ((f : ℕ) (previous' : Option ℕ)
            → length rest ≤ f
            → IsAscending previous' routes
            → decode_loop f previous' rest ≡ ok (drop_zeros routes))
        → decode_loop fuel previous (written ++ rest) ≡ ok (drop_zeros ((route, c) ∷ routes))
    go written rest (inl (z, e)) enough ih =
        subst (λ x. decode_loop fuel previous (x ++ rest) ≡ ok (drop_zeros ((route, c) ∷ routes)))
          (sym e)
          (rw z (
            ih fuel previous (subst (λ x. length (x ++ rest) ≤ fuel) e enough)
              (IsAscending-lower previous route routes a.0 a.1)))
    go written rest (inr (z, (w, small, h, e))) enough ih =
        subst (λ x. decode_loop fuel previous (x ++ rest) ≡ ok (drop_zeros ((route, c) ∷ routes)))
          (sym e)
          (rw z (
            decode_loop-entry fuel previous route w c rest (drop_zeros routes) a.0 z small h
              (subst (λ x. length (x ++ rest) ≤ fuel) e enough) (λ f n. ih f (some route) n a.1)))

-- A blob that `encode` wrote of ascending routes decodes to those of them that are not zero.
pub decode-encode :
    (routes : RoutedCredits) (bytes : List ℕ)
    → IsAscending none routes
    → encode routes ≡ ok bytes
    → decode bytes ≡ ok (drop_zeros routes)
unfolding decode
decode-encode routes bytes a h =
    decode_loop-encode routes (length bytes) none bytes (omega arith) a h

-- A loop that succeeds has read what `encode` writes of its result.
encode-decode_loop :
    (fuel : ℕ) (previous : Option ℕ) (bytes : List ℕ) (routes : RoutedCredits)
    → All IsByte bytes
    → decode_loop fuel previous bytes ≡ ok routes
    → (encode routes ≡ ok bytes) × IsAscending previous routes × (drop_zeros routes ≡ routes)
unfolding decode_loop encode drop_zeros
encode-decode_loop fuel previous [] routes b h =
    subst (λ r. (encode r ≡ ok []) × IsAscending previous r × (drop_zeros r ≡ r)) (ok-injective h)
      (refl, tt, refl)
encode-decode_loop zero previous (x ∷ bytes) routes b h = cc
encode-decode_loop (suc f) previous (x ∷ bytes) routes b h =
    let ((entry, rest), e, h') = >>=-eq-ok (read_entry previous (x ∷ bytes)) _ h in
    let (routes', g, h'') = >>=-eq-ok (decode_loop f (some entry.0) rest) _ h' in
    let r = read_entry-Reread previous (x ∷ bytes) rest entry b e in
    let ih = encode-decode_loop f (some entry.0) rest routes' r.3 g in
    subst (λ q. (encode q ≡ ok (x ∷ bytes)) × IsAscending previous q × (drop_zeros q ≡ q))
      (ok-injective h'') (rw (r.2.1, ih.0) (ap ok (sym r.2.2)), (r.0, ih.1), rw (r.1, ih.2) refl)

-- A blob that decodes is the one that `encode` writes of the result, which ascends and holds no
-- zero: totals have one stored form.
pub encode-decode :
    (bytes : List ℕ) (routes : RoutedCredits)
    → All IsByte bytes
    → decode bytes ≡ ok routes
    → (encode routes ≡ ok bytes) × IsAscending none routes × (drop_zeros routes ≡ routes)
unfolding decode
encode-decode bytes routes b h = encode-decode_loop (length bytes) none bytes routes b h
