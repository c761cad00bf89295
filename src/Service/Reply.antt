-- ===== src/Service/Reply.antt =====
-- src/service/protocol.rs: `Reply` and the frame that it is written as.
pub mod Read
pub mod Stream
use fareward.Common.{ℕ, ◌%◌, ◌^◌, List, [], ◌∷◌, ◌++◌, length}
use fareward.Common.Int.{ℤ}
use fareward.Common.Bytes.{be_bytes, i64_word}
use fareward.Service.Shape.{ReplyShape, shape_byte}

-- A granted charge has the two masks and the sub bytes, a lost lock the action and the identifier.
pub data Reply : Type 0 where
  charge_allowed : Reply
  charge_granted : ℕ → ℕ → List ℕ → Reply
  charge_credit_violation charge_access_denied : ℕ → Reply
  lock_granted lock_refused : ℕ → Reply
  ack : Reply
  budget_refused : ℕ → Reply
  sequence_value : ℤ → Reply
  sequence_invalid unavailable : Reply
  lock_lost : ℕ → ℤ → Reply

unfoldable pub shape : Reply → ReplyShape
shape charge_allowed = ReplyShape.charge_allowed
shape (charge_granted granted_mask has_subs_mask sub_bytes) = ReplyShape.charge_granted
shape (charge_credit_violation code) = ReplyShape.charge_credit_violation
shape (charge_access_denied code) = ReplyShape.charge_access_denied
shape (lock_granted generation) = ReplyShape.lock_granted
shape (lock_refused code) = ReplyShape.lock_refused
shape ack = ReplyShape.ack
shape (budget_refused code) = ReplyShape.budget_refused
shape (sequence_value value) = ReplyShape.sequence_value
shape sequence_invalid = ReplyShape.sequence_invalid
shape unavailable = ReplyShape.unavailable
shape (lock_lost action identifier) = ReplyShape.lock_lost

abbrev pub lock_lost_body_size : ℕ
lock_lost_body_size = 10

-- The second `match` of `encode`.
unfoldable pub encode_body : Reply → List ℕ
unfolding be_bytes
encode_body charge_allowed = []
encode_body ack = []
encode_body sequence_invalid = []
encode_body unavailable = []
encode_body (charge_granted granted_mask has_subs_mask sub_bytes) =
    granted_mask ∷ has_subs_mask ∷ length sub_bytes % 2 ^ 8 ∷ sub_bytes
encode_body (charge_credit_violation code) = code ∷ []
encode_body (charge_access_denied code) = code ∷ []
encode_body (lock_refused code) = code ∷ []
encode_body (budget_refused code) = code ∷ []
encode_body (lock_granted generation) = be_bytes 2 generation
encode_body (sequence_value value) = be_bytes 8 (i64_word value)
encode_body (lock_lost action identifier) =
    lock_lost_body_size ∷ be_bytes 2 action ++ be_bytes 8 (i64_word identifier)

unfoldable pub encode : ℕ → Reply → List ℕ
unfolding shape_byte shape encode_body be_bytes
encode sequence reply =
    shape_byte (shape reply) ∷ be_bytes 2 (sequence % 2 ^ 16) ++ encode_body reply
