-- ===== src/Tests/Blobs.antt =====
-- src/limiter/credits_blob.rs: the theorems about the stored totals at concrete routes and bytes.
use fareward.Common.{◌≡◌, refl, [], ◌∷◌, arith}
use fareward.Common.Result.{ok}
use fareward.Limiter.Credits.{RoutedCredits}
use fareward.Limiter.Blob.{encode, decode}
use fareward.Limiter.Blob.Entries.{drop_zeros}
use fareward.Limiter.Blob.RoundTrip.{decode-encode, encode-decode}

abbrev routes : RoutedCredits
routes =
    (3, record { cpu = 300; inference = 5 })
    ∷ (4, record { cpu = 0; inference = 0 })
    ∷ (9, record { cpu = 70000; inference = 1 })
    ∷ []

stored_routes :
    encode routes ≡ ok (0 ∷ 13 ∷ 1 ∷ 44 ∷ 0 ∷ 5 ∷ 0 ∷ 38 ∷ 1 ∷ 17 ∷ 112 ∷ 0 ∷ 0 ∷ 1 ∷ [])
unfolding encode
stored_routes = refl

decode-encode_example :
    decode (0 ∷ 13 ∷ 1 ∷ 44 ∷ 0 ∷ 5 ∷ 0 ∷ 38 ∷ 1 ∷ 17 ∷ 112 ∷ 0 ∷ 0 ∷ 1 ∷ [])
    ≡ ok (drop_zeros routes)
decode-encode_example = decode-encode routes _ (refl, (refl, (refl, tt))) stored_routes

encode-decode_example :
    (encode ((3, record { cpu = 300; inference = 5 }) ∷ []) ≡ ok (0 ∷ 13 ∷ 1 ∷ 44 ∷ 0 ∷ 5 ∷ []))
unfolding decode
encode-decode_example =
    (encode-decode (0 ∷ 13 ∷ 1 ∷ 44 ∷ 0 ∷ 5 ∷ []) ((3, record { cpu = 300; inference = 5 }) ∷ [])
      (omega arith, (omega arith, (omega arith, (omega arith, (omega arith, (omega arith, tt))))))
      refl).0
