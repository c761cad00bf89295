-- ===== src/Service/Opcode.antt =====
-- src/service/protocol.rs: `Opcode` with the size of the buffer that takes the frames of them all.
pub mod Buffer
use fareward.Common.{ℕ, ◌+◌, ◌*◌, Bool, true, false, Option, none, some, ltb, ◌==◌, if◌then◌else◌}
use fareward.Sequence.Protocol.{sequence_name_max}
use fareward.Reqlog.Record.{request_log_max_payload_size}

pub data Opcode : Type 0 where
  charge_credits lock_acquire lock_release log_request mutate_company_budget : Opcode
  invalidate_user_access reserve_sequence set_sequence : Opcode

-- `self as u8`
unfoldable pub opcode_byte : Opcode → ℕ
opcode_byte charge_credits = 0x01
opcode_byte lock_acquire = 0x02
opcode_byte lock_release = 0x03
opcode_byte log_request = 0x04
opcode_byte mutate_company_budget = 0x05
opcode_byte invalidate_user_access = 0x06
opcode_byte reserve_sequence = 0x07
opcode_byte set_sequence = 0x08

unfoldable pub opcode_from_byte : ℕ → Option Opcode
opcode_from_byte byte =
    if byte == 0x01
    then some charge_credits
    else if byte == 0x02
    then some lock_acquire
    else if byte == 0x03
    then some lock_release
    else if byte == 0x04
    then some log_request
    else if byte == 0x05
    then some mutate_company_budget
    else if byte == 0x06
    then some invalidate_user_access
    else if byte == 0x07
    then some reserve_sequence
    else if byte == 0x08
    then some set_sequence
    else none

-- The ceilings of the payloads, each from the module of its operation.
abbrev charge_max_payload_size : ℕ
charge_max_payload_size = 48

abbrev acquire_max_payload_size : ℕ
acquire_max_payload_size = 40

abbrev release_max_payload_size : ℕ
release_max_payload_size = 24

abbrev mutate_budget_max_payload_size : ℕ
mutate_budget_max_payload_size = 32

abbrev invalidate_access_max_payload_size : ℕ
invalidate_access_max_payload_size = 16

abbrev sequence_reserve_max_payload_size : ℕ
sequence_reserve_max_payload_size = 4 + sequence_name_max

abbrev sequence_set_max_payload_size : ℕ
sequence_set_max_payload_size = 8 + sequence_name_max

unfoldable pub max_payload_size : Opcode → ℕ
max_payload_size charge_credits = charge_max_payload_size
max_payload_size lock_acquire = acquire_max_payload_size
max_payload_size lock_release = release_max_payload_size
max_payload_size log_request = request_log_max_payload_size
max_payload_size mutate_company_budget = mutate_budget_max_payload_size
max_payload_size invalidate_user_access = invalidate_access_max_payload_size
max_payload_size reserve_sequence = sequence_reserve_max_payload_size
max_payload_size set_sequence = sequence_set_max_payload_size

unfoldable pub expects_reply : Opcode → Bool
expects_reply log_request = false
expects_reply invalidate_user_access = false
expects_reply _ = true

abbrev pub larger : ℕ → ℕ → ℕ
larger left right = if ltb right left then left else right

unfoldable pub largest_payload_size : ℕ
largest_payload_size =
    larger
      (larger (larger charge_max_payload_size acquire_max_payload_size)
        (larger release_max_payload_size mutate_budget_max_payload_size))
      (larger (larger invalidate_access_max_payload_size request_log_max_payload_size)
        (larger sequence_reserve_max_payload_size sequence_set_max_payload_size))

abbrev pub opcode_size : ℕ
opcode_size = 1

abbrev pub length_prefix_size : ℕ
length_prefix_size = 2

abbrev pub auth_tag_size : ℕ
auth_tag_size = 8

unfoldable pub max_frame_size : ℕ
unfolding largest_payload_size
max_frame_size = opcode_size + length_prefix_size + largest_payload_size + auth_tag_size
