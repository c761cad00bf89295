-- ===== src/Siphash.antt =====
-- src/siphash.rs: SipHash-2-4 over a message that comes in pieces. Words are below 2^64; bits that
-- do not meet are added.
pub mod Pieces
use fareward.Common.{
  ℕ, ◌+◌, ◌-◌, ◌*◌, ◌/◌, ◌%◌, ◌^◌, min, List, [], ◌∷◌, ◌++◌, ltb, ◌==◌, if◌then◌else◌, length, take,
  drop,
}
use Prim.Native.Nat.{bit_xor}

abbrev u64 : ℕ
u64 = 2 ^ 64

abbrev pub wrapping_add : ℕ → ℕ → ℕ
wrapping_add a b = (a + b) % u64

abbrev pub rotate_left : ℕ → ℕ → ℕ
rotate_left x n = x * 2 ^ n % u64 + x / 2 ^ (64 - n)

-- `u64::from_le_bytes`
unfoldable pub le_word : List ℕ → ℕ
le_word [] = 0
le_word (byte ∷ bytes) = byte + 256 * le_word bytes

pub record Key : Type 0 where
  pub k0 : ℕ
  pub k1 : ℕ

-- `sha256` is the digest of the sha2 crate.
unfoldable pub derive_key : (List ℕ → List ℕ) → List ℕ → Key
unfolding le_word
derive_key sha256 secret =
    let digest = sha256 secret in
    record { k0 = le_word (take 8 digest); k1 = le_word (take 8 (drop 8 digest)) }

pub record State : Type 0 where
  pub v0 : ℕ
  pub v1 : ℕ
  pub v2 : ℕ
  pub v3 : ℕ

-- `tail` has the `tail_len` bytes of the word that is not full.
pub record SipHasher24 : Type 0 where
  pub state : State
  pub tail : List ℕ
  pub total_len : ℕ

unfoldable pub new : Key → SipHasher24
new key = record {
  state = record {
    v0 = bit_xor key.k0 0x736f_6d65_7073_6575;
    v1 = bit_xor key.k1 0x646f_7261_6e64_6f6d;
    v2 = bit_xor key.k0 0x6c79_6765_6e65_7261;
    v3 = bit_xor key.k1 0x7465_6462_7974_6573;
  };
  tail = [];
  total_len = 0;
}

unfoldable pub round : State → State
round s =
    let a0 = wrapping_add s.v0 s.v1 in
    let a1 = bit_xor (rotate_left s.v1 13) a0 in
    let a2 = wrapping_add s.v2 s.v3 in
    let a3 = bit_xor (rotate_left s.v3 16) a2 in
    let b0 = wrapping_add (rotate_left a0 32) a3 in
    let b2 = wrapping_add a2 a1 in
    record {
      v0 = b0;
      v1 = bit_xor (rotate_left a1 17) b2;
      v2 = rotate_left b2 32;
      v3 = bit_xor (rotate_left a3 21) b0;
    }

unfoldable pub compress : ℕ → State → State
unfolding round
compress word s =
    let s' = round (round (record s { v3 = bit_xor s.v3 word })) in
    record s' { v0 = bit_xor s'.v0 word }

-- `chunks_exact(8)`, and the remainder.
unfoldable pub compress_chunks : List ℕ → State → State × List ℕ
unfolding compress le_word
compress_chunks (a ∷ b ∷ c ∷ d ∷ e ∷ f ∷ g ∷ h ∷ bytes) s =
    compress_chunks bytes (compress (le_word (a ∷ b ∷ c ∷ d ∷ e ∷ f ∷ g ∷ h ∷ [])) s)
compress_chunks bytes s = (s, bytes)

-- What follows once no partial word is left.
unfoldable pub write_words : List ℕ → ℕ → State → SipHasher24
unfolding compress_chunks
write_words bytes total_len s =
    let (s', leftover) = compress_chunks bytes s in
    record { state = s'; tail = leftover; total_len = total_len }

unfoldable pub write : List ℕ → SipHasher24 → SipHasher24
unfolding write_words compress le_word
write bytes h =
    let total_len = wrapping_add h.total_len (length bytes) in
    if ltb 0 (length h.tail)
    then (let taken = min (length bytes) (8 - length h.tail) in
        let tail = h.tail ++ take taken bytes in
        if ltb (length tail) 8
        then record { state = h.state; tail = tail; total_len = total_len }
        else write_words (drop taken bytes) total_len (compress (le_word tail) h.state))
    else write_words bytes total_len h.state

unfoldable pub finish : SipHasher24 → ℕ
unfolding compress round le_word
finish h =
    let last_word = h.total_len % 2 ^ 8 * 2 ^ 56 + le_word h.tail in
    let s = compress last_word h.state in
    let r = round (round (round (round (record s { v2 = bit_xor s.v2 0xff })))) in
    bit_xor (bit_xor (bit_xor r.v0 r.v1) r.v2) r.v3
