-- ===== src/Service/Reply/Stream.antt =====
-- src/service/server.rs: the frames that the writer task sends, read by a client one after the other.
use fareward.Common.{
  ℕ, zero, suc, ◌%◌, ◌^◌, ◌≤◌, ◌≡◌, refl, ap, none, some, List, [], ◌∷◌, ◌++◌, map, All, length,
  arith,
}
use fareward.Service.Reply.{Reply, encode}
use fareward.Service.Reply.Read.{Fits, read_reply, read_reply-encode}

-- What the writer task writes of the replies that are sent, each with its sequence.
unfoldable pub wire : List (ℕ × Reply) → List ℕ
unfolding encode
wire [] = []
wire ((sequence, reply) ∷ sent) = encode sequence reply ++ wire sent

unfoldable pub read_all : ℕ → List ℕ → List (ℕ × Reply)
unfolding read_reply
read_all zero bytes = []
read_all (suc fuel) bytes = elim (read_reply bytes) [
  | none ↦ []
  | some (correlation, reply, rest) ↦ let later = read_all fuel rest in (correlation, reply) ∷ later
]

abbrev pub AllFit : List (ℕ × Reply) → Type 0
AllFit = All (λ entry. Fits entry.1)

abbrev pub correlated : ℕ × Reply → ℕ × Reply
correlated entry = (entry.0 % 2 ^ 16, entry.1)

-- Replies and pushes that fit their fields are read from the stream as they were sent and in that
-- order, each with the low 16 bits of its sequence, by a client that reads at least as many.
pub read_all-wire :
    (fuel : ℕ) (sent : List (ℕ × Reply))
    → length sent ≤ fuel
    → AllFit sent
    → read_all fuel (wire sent) ≡ map correlated sent
unfolding read_all wire
read_all-wire zero [] enough fit = refl
read_all-wire (suc fuel) [] enough fit = unfold read_reply in refl
read_all-wire zero ((sequence, reply) ∷ sent) enough fit = absurd (omega (arith, enough))
read_all-wire (suc fuel) ((sequence, reply) ∷ sent) enough fit =
    rw (read_all, read_reply-encode sequence reply (wire sent) fit.0)
      (ap (λ later. (sequence % 2 ^ 16, reply) ∷ later)
        (read_all-wire fuel sent (omega (arith, enough)) fit.1))
