-- ===== src/Service/Auth/Tags.antt =====
-- src/service/auth.rs: the tag is the hash of one message.
use fareward.Common.{ℕ, ◌<◌, ◌≡◌, ap, subst, ◌∙◌, ◌↔◌, true, List, [], ◌∷◌, ◌++◌, length, arith}
use fareward.Common.Bytes.{be_bytes}
use fareward.Siphash.{SipHasher24, derive_key, new, write, finish}
use fareward.Siphash.Pieces.{write-append}
use fareward.Service.Auth.{domain, same_bytes, compute_hash, verify_hash}

same_bytes_iff : (xs ys : List ℕ) → (same_bytes xs ys ≡ true) ↔ (xs ≡ ys)
unfolding same_bytes
same_bytes_iff [] [] = ground arith
same_bytes_iff [] (y ∷ ys) = ground arith
same_bytes_iff (x ∷ xs) [] = ground arith
same_bytes_iff (x ∷ xs) (y ∷ ys) = ground (arith, same_bytes_iff xs ys)

write_four :
    (a b c d : List ℕ) (h : SipHasher24)
    → length h.tail < 8
    → write d (write c (write b (write a h))) ≡ write (a ++ b ++ c ++ d) h
write_four a b c d h o =
    ap (λ w. write d (write c w)) (write-append a b h o)
    ∙ ap (write d) (write-append (a ++ b) c h o)
    ∙ write-append (a ++ b ++ c) d h o

-- A tag is accepted exactly where it is the eight bytes of the hash of one message: the domain, the
-- nonce, the sequence in eight bytes and the payload, one behind the other.
pub verify_hash_message :
    (sha256 : List ℕ → List ℕ) (secret nonce : List ℕ) (sequence : ℕ)
    (authenticated_payload received : List ℕ)
    → (verify_hash sha256 secret nonce sequence authenticated_payload received ≡ true) ↔ (
        be_bytes 8 (
          finish (
            write
              (domain ++ nonce ++ be_bytes 8 sequence ++ authenticated_payload)
              (new (derive_key sha256 secret))))
        ≡ received)
unfolding verify_hash compute_hash new
verify_hash_message sha256 secret nonce sequence authenticated_payload received =
    subst
      (λ tag.
        (verify_hash sha256 secret nonce sequence authenticated_payload received ≡ true)
        ↔ (tag ≡ received))
      (ap (λ h. be_bytes 8 (finish h))
        (write_four domain nonce (be_bytes 8 sequence) authenticated_payload
          (new (derive_key sha256 secret)) (omega arith)))
      (same_bytes_iff (compute_hash sha256 secret nonce sequence authenticated_payload) received)
