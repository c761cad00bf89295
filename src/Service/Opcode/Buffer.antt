-- ===== src/Service/Opcode/Buffer.antt =====
-- src/service/protocol.rs: the frames of every opcode fit the buffer.
use fareward.Common.{ℕ, ◌+◌, ◌≤◌, ◌≡◌, some, arith}
use fareward.Service.Opcode.{
  Opcode, opcode_byte, opcode_from_byte, max_payload_size, max_frame_size, opcode_size,
  length_prefix_size, auth_tag_size,
}

pub opcode_from_byte-opcode_byte :
    (opcode : Opcode) → opcode_from_byte (opcode_byte opcode) ≡ some opcode
unfolding opcode_byte opcode_from_byte
opcode_from_byte-opcode_byte opcode = ground arith

pub max_payload_size-max_frame_size :
    (opcode : Opcode)
    → opcode_size + length_prefix_size + max_payload_size opcode + auth_tag_size ≤ max_frame_size
unfolding max_payload_size max_frame_size
max_payload_size-max_frame_size opcode = ground arith

pub opcode_of_byte :
    (byte : ℕ) (opcode : Opcode) → opcode_from_byte byte ≡ some opcode → byte ≡ opcode_byte opcode
unfolding opcode_byte opcode_from_byte
opcode_of_byte byte opcode h = ground (arith, h)
