-- ===== src/Tests/Siphashes.antt =====
-- src/siphash.rs: reference vectors, and a message in two pieces.
use fareward.Common.{ℕ, ◌≡◌, refl, List, [], ◌∷◌, ◌++◌, arith}
use fareward.Siphash.{Key, new, write, finish}
use fareward.Siphash.Pieces.{write-append}

-- The bytes from 00 to 0f.
abbrev reference_key : Key
reference_key = record { k0 = 0x0706050403020100; k1 = 0x0f0e0d0c0b0a0908 }

abbrev five_bytes : List ℕ
five_bytes = 0 ∷ 1 ∷ 2 ∷ 3 ∷ 4 ∷ []

abbrev ten_bytes : List ℕ
ten_bytes = 5 ∷ 6 ∷ 7 ∷ 8 ∷ 9 ∷ 10 ∷ 11 ∷ 12 ∷ 13 ∷ 14 ∷ []

empty_vector : finish (write [] (new reference_key)) ≡ 0x726f_db47_dd0e_0e31
unfolding finish write new
empty_vector = refl

fifteen_vector :
    finish (write ten_bytes (write five_bytes (new reference_key))) ≡ 0xa129_ca61_49be_45e5
unfolding finish write new
fifteen_vector = refl

write-append_example :
    write ten_bytes (write five_bytes (new reference_key))
    ≡ write (five_bytes ++ ten_bytes) (new reference_key)
unfolding new
write-append_example = write-append five_bytes ten_bytes (new reference_key) (omega arith)
