-- ===== src/Service/Shape.antt =====
-- src/service/protocol.rs: `ReplyShape`, the first byte of a reply.
use fareward.Common.{ℕ, Bool, Option, none, some, leb, ◌==◌, if◌then◌else◌}

pub data ReplyShape : Type 0 where
  charge_allowed charge_granted charge_credit_violation charge_access_denied : ReplyShape
  lock_granted lock_refused ack budget_refused : ReplyShape
  sequence_value sequence_invalid unavailable lock_lost : ReplyShape

-- `self as u8`
unfoldable pub shape_byte : ReplyShape → ℕ
shape_byte charge_allowed = 0x01
shape_byte charge_granted = 0x02
shape_byte charge_credit_violation = 0x03
shape_byte charge_access_denied = 0x04
shape_byte lock_granted = 0x05
shape_byte lock_refused = 0x06
shape_byte ack = 0x07
shape_byte budget_refused = 0x08
shape_byte sequence_value = 0x09
shape_byte sequence_invalid = 0x0A
shape_byte unavailable = 0x7F
shape_byte lock_lost = 0x80

unfoldable pub from_byte : ℕ → Option ReplyShape
from_byte byte =
    if byte == 0x01
    then some charge_allowed
    else if byte == 0x02
    then some charge_granted
    else if byte == 0x03
    then some charge_credit_violation
    else if byte == 0x04
    then some charge_access_denied
    else if byte == 0x05
    then some lock_granted
    else if byte == 0x06
    then some lock_refused
    else if byte == 0x07
    then some ack
    else if byte == 0x08
    then some budget_refused
    else if byte == 0x09
    then some sequence_value
    else if byte == 0x0A
    then some sequence_invalid
    else if byte == 0x7F
    then some unavailable
    else if byte == 0x80
    then some lock_lost
    else none

abbrev pub push_floor : ℕ
push_floor = 0x80

unfoldable pub is_push : ReplyShape → Bool
unfolding shape_byte
is_push shape = leb push_floor (shape_byte shape)

abbrev pub sequence_reply_extra_size : ℕ
sequence_reply_extra_size = 8

unfoldable pub body_size : ReplyShape → Option ℕ
body_size charge_allowed = some 0
body_size ack = some 0
body_size sequence_invalid = some 0
body_size unavailable = some 0
body_size charge_credit_violation = some 1
body_size charge_access_denied = some 1
body_size lock_refused = some 1
body_size budget_refused = some 1
body_size lock_granted = some 2
body_size sequence_value = some sequence_reply_extra_size
body_size charge_granted = none
body_size lock_lost = none
