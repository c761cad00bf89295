-- ===== src/Tests/Replies.antt =====
-- src/service/protocol.rs: replies on a stream.
use fareward.Common.{◌≡◌, refl, [], ◌∷◌, List, ℕ, map, arith}
use fareward.Common.Int.{negsuc}
use fareward.Service.Reply.{Reply, charge_granted, lock_granted, sequence_value, lock_lost, ack}
use fareward.Service.Reply.Stream.{wire, read_all, correlated, read_all-wire}

abbrev four_replies : List (ℕ × Reply)
four_replies =
    (65_537, charge_granted 3 2 (0x81 ∷ 0x20 ∷ []))
    ∷ (7, sequence_value (negsuc 41))
    ∷ (0, lock_lost 9 (negsuc 6))
    ∷ (8, lock_granted 300)
    ∷ []

read_all-wire_example : read_all 5 (wire four_replies) ≡ map correlated four_replies
read_all-wire_example = read_all-wire 5 four_replies (omega arith) (
  omega arith,
  ((omega arith, omega arith), ((omega arith, (omega arith, omega arith)), (omega arith, tt))),
)

-- The bytes that a client sees.
granted_bytes :
    wire ((65_537, charge_granted 3 2 (0x81 ∷ 0x20 ∷ [])) ∷ (8, ack) ∷ [])
    ≡ 2 ∷ 0 ∷ 1 ∷ 3 ∷ 2 ∷ 2 ∷ 0x81 ∷ 0x20 ∷ 7 ∷ 0 ∷ 8 ∷ []
unfolding wire
granted_bytes = refl
