-- ===== src/Service/Reply/Read.antt =====
-- src/service/protocol.rs: a client reads a reply by its shape, as go/connection.go does.
use fareward.Common.{
  ℕ, ◌+◌, ◌%◌, ◌^◌, ◌<◌, ◌≡◌, Option, none, some, List, [], ◌∷◌, ◌++◌, if◌then◌else◌, length, ltb,
  take, drop, take-append, drop-append, length-append, arith,
}
use fareward.Common.Int.{IsI64}
use fareward.Common.Bytes.{
  from_be, be_bytes, as_i64, i64_word, as_i64-i64_word, i64_word-lt, from_be-be_bytes_2,
  from_be-be_bytes_8,
}
use fareward.Service.Shape.{ReplyShape, shape_byte, from_byte, is_push, body_size}
use fareward.Service.Reply.{
  Reply, charge_allowed, charge_granted, charge_credit_violation, charge_access_denied,
  lock_granted, lock_refused, ack, budget_refused, sequence_value, sequence_invalid, unavailable,
  lock_lost, shape, encode, encode_body,
}

unfoldable split : ℕ → List ℕ → Option (List ℕ × List ℕ)
split n bytes = if ltb (length bytes) n then none else some (take n bytes, drop n bytes)

-- A body that states its own length: that of a push stands first, that of the masks third.
unfoldable split_stated : ReplyShape → List ℕ → Option (List ℕ × List ℕ)
unfolding is_push split
split_stated named (first ∷ second ∷ third ∷ bytes) =
    if is_push named
    then split first (second ∷ third ∷ bytes)
    else split (3 + third) (first ∷ second ∷ third ∷ bytes)
split_stated named (first ∷ bytes) = if is_push named then split first bytes else none
split_stated named [] = none

unfoldable split_body : ReplyShape → List ℕ → Option (List ℕ × List ℕ)
unfolding split split_stated body_size
split_body named bytes = elim (body_size named) [
  | some n ↦ split n bytes
  | none ↦ split_stated named bytes
]

unfoldable reply_of : ReplyShape → List ℕ → Option Reply
unfolding from_be
reply_of ReplyShape.charge_allowed body = some charge_allowed
reply_of ReplyShape.ack body = some ack
reply_of ReplyShape.sequence_invalid body = some sequence_invalid
reply_of ReplyShape.unavailable body = some unavailable
reply_of ReplyShape.charge_credit_violation (code ∷ _) = some (charge_credit_violation code)
reply_of ReplyShape.charge_access_denied (code ∷ _) = some (charge_access_denied code)
reply_of ReplyShape.lock_refused (code ∷ _) = some (lock_refused code)
reply_of ReplyShape.budget_refused (code ∷ _) = some (budget_refused code)
reply_of ReplyShape.lock_granted body = some (lock_granted (from_be 0 body))
reply_of ReplyShape.sequence_value body = some (sequence_value (as_i64 (from_be 0 body)))
reply_of ReplyShape.charge_granted (granted_mask ∷ has_subs_mask ∷ _ ∷ sub_bytes) =
    some (charge_granted granted_mask has_subs_mask sub_bytes)
reply_of ReplyShape.lock_lost body =
    some (lock_lost (from_be 0 (take 2 body)) (as_i64 (from_be 0 (drop 2 body))))
reply_of _ body = none

-- The correlation, the reply, and what follows on the stream.
unfoldable pub read_reply : List ℕ → Option (ℕ × Reply × List ℕ)
unfolding from_be from_byte split_body reply_of
read_reply (byte ∷ high ∷ low ∷ bytes) = elim (from_byte byte) [
  | none ↦ none
  | some named ↦ elim (split_body named bytes) [
    | none ↦ none
    | some (body, rest) ↦ elim (reply_of named body) [
      | none ↦ none
      | some reply ↦ some (from_be 0 (high ∷ low ∷ []), reply, rest)
    ]
  ]
]
read_reply _ = none

-- What the widths of the fields in the source leave.
abbrev pub Fits : Reply → Type 0
Fits (charge_granted granted_mask has_subs_mask sub_bytes) = length sub_bytes < 2 ^ 8
Fits (lock_granted generation) = generation < 2 ^ 16
Fits (sequence_value value) = IsI64 value
Fits (lock_lost action identifier) = (action < 2 ^ 16) × IsI64 identifier
Fits reply = Unit {0}

split-append : (xs ys : List ℕ) → split (length xs) (xs ++ ys) ≡ some (xs, ys)
unfolding split
split-append xs ys = rw (take-append xs ys, drop-append xs ys) (ground (arith, length-append xs ys))

from_byte-shape_byte : (named : ReplyShape) → from_byte (shape_byte named) ≡ some named
unfolding from_byte shape_byte
from_byte-shape_byte named = ground arith

-- The body of a frame, as it is handed on.
abbrev body_of : Reply → List ℕ
body_of (lock_lost action identifier) = be_bytes 2 action ++ be_bytes 8 (i64_word identifier)
body_of reply = encode_body reply

split_body-encode_body :
    (reply : Reply) (rest : List ℕ)
    → Fits reply
    → split_body (shape reply) (encode_body reply ++ rest) ≡ some (body_of reply, rest)
unfolding split_body split split_stated is_push shape_byte body_size shape encode_body be_bytes
split_body-encode_body (charge_granted granted has sub_bytes) rest h =
    ground (arith, h, split-append (granted ∷ has ∷ length sub_bytes ∷ sub_bytes) rest)
split_body-encode_body reply rest h = ground (arith, h)

reply_of-body_of :
    (reply : Reply) → Fits reply → reply_of (shape reply) (body_of reply) ≡ some reply
unfolding reply_of shape encode_body be_bytes
reply_of-body_of (lock_granted generation) h = ground (arith, from_be-be_bytes_2 generation h)
reply_of-body_of (sequence_value value) h =
    ground
      (arith, from_be-be_bytes_8 (i64_word value) (i64_word-lt value h), as_i64-i64_word value h)
reply_of-body_of (lock_lost action identifier) h = ground (
  arith,
  from_be-be_bytes_2 action h.0,
  from_be-be_bytes_8 (i64_word identifier) (i64_word-lt identifier h.1),
  as_i64-i64_word identifier h.1,
)
reply_of-body_of reply h = ground (arith, h)

-- A reply that fits its fields, encoded with other bytes behind it, is read as it was, with the low
-- 16 bits of the sequence of its request, and the other bytes are left.
pub read_reply-encode :
    (sequence : ℕ) (reply : Reply) (rest : List ℕ)
    → Fits reply
    → read_reply (encode sequence reply ++ rest) ≡ some (sequence % 2 ^ 16, reply, rest)
unfolding read_reply encode be_bytes
read_reply-encode sequence reply rest h = ground (
  arith,
  from_byte-shape_byte (shape reply),
  split_body-encode_body reply rest h,
  reply_of-body_of reply h,
  from_be-be_bytes_2 (sequence % 2 ^ 16) (omega arith),
)
