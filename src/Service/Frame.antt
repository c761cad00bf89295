-- ===== src/Service/Frame.antt =====
-- src/service/server.rs: the reads of a frame. The bytes are those that come on the stream before the
-- timeouts and the end of the stream, so that too few of them are a truncated frame.
pub mod Bounds
use fareward.Common.{
  ℕ, ◌+◌, Option, none, some, List, [], ◌∷◌, ◌++◌, ltb, if◌then◌else◌, take, drop,
}
use fareward.Common.Bytes.{from_be}
use fareward.Sequence.Protocol.{take_bytes}
use fareward.Service.Opcode.{
  Opcode, opcode_from_byte, max_payload_size, length_prefix_size, auth_tag_size,
}

-- `head` is the opcode and the length.
pub record Frame : Type 0 where
  pub opcode : Opcode
  pub head : List ℕ
  pub payload : List ℕ
  pub received_tag : List ℕ

-- The bytes that are signed.
abbrev pub authenticated : Frame → List ℕ
authenticated f = f.head ++ f.payload

pub data FrameError : Type 0 where
  unknown_opcode : ℕ → FrameError
  length_cut body_cut : FrameError
  over_ceiling : ℕ → ℕ → FrameError

-- The stream ended in front of a frame, the frame is refused, or it is there with what follows it.
pub data FrameRead : Type 0 where
  stream_end : FrameRead
  refused : FrameError → FrameRead
  complete : Frame → List ℕ → FrameRead

unfoldable pub read_body : Opcode → List ℕ → ℕ → List ℕ → FrameRead
unfolding max_payload_size
read_body opcode head payload_size bytes =
    if ltb (max_payload_size opcode) payload_size
    then refused (over_ceiling payload_size (max_payload_size opcode))
    else elim (take_bytes (payload_size + auth_tag_size) bytes) [
      | none ↦ refused body_cut
      | some (body, rest) ↦
          complete
            (record {
              opcode = opcode;
              head = head;
              payload = take payload_size body;
              received_tag = drop payload_size body;
            })
            rest
    ]

unfoldable pub read_frame : List ℕ → FrameRead
unfolding opcode_from_byte from_be read_body
read_frame [] = stream_end
read_frame (byte ∷ bytes) = elim (opcode_from_byte byte) [
  | none ↦ refused (unknown_opcode byte)
  | some opcode ↦ elim (take_bytes length_prefix_size bytes) [
    | none ↦ refused length_cut
    | some (prefix, rest) ↦ read_body opcode (byte ∷ prefix) (from_be 0 prefix) rest
  ]
]
