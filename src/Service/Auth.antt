-- ===== src/Service/Auth.antt =====
-- src/service/auth.rs: the tag of a frame. The nonce has eight bytes from the operating system.
pub mod Tags
use fareward.Common.{ℕ, Bool, true, false, ◌&&◌, List, [], ◌∷◌, ◌==◌}
use fareward.Common.Bytes.{be_bytes}
use fareward.Siphash.{derive_key, new, write, finish}

-- `fareward:v12`
abbrev pub domain : List ℕ
domain = b'f' ∷ b'a' ∷ b'r' ∷ b'e' ∷ b'w' ∷ b'a' ∷ b'r' ∷ b'd' ∷ b':' ∷ b'v' ∷ b'1' ∷ b'2' ∷ []

-- `ct_eq` on two arrays of a length.
unfoldable pub same_bytes : List ℕ → List ℕ → Bool
same_bytes [] [] = true
same_bytes (x ∷ xs) (y ∷ ys) = x == y && same_bytes xs ys
same_bytes xs ys = false

-- `sha256` is the digest of the sha2 crate.
module _ (sha256 : List ℕ → List ℕ) (secret nonce : List ℕ) (sequence : ℕ)
    (authenticated_payload : List ℕ) where
  unfoldable pub compute_hash : List ℕ
  unfolding be_bytes derive_key new write finish
  compute_hash =
      let named = write domain (new (derive_key sha256 secret)) in
      let counted = write (be_bytes 8 sequence) (write nonce named) in
      be_bytes 8 (finish (write authenticated_payload counted))

  unfoldable pub verify_hash : List ℕ → Bool
  unfolding compute_hash same_bytes
  verify_hash received = same_bytes compute_hash received
