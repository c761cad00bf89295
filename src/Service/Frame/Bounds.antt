-- ===== src/Service/Frame/Bounds.antt =====
-- src/service/server.rs: what is read of a frame fits the buffer, and the stream is cut where the
-- length says.
use fareward.Common.{
  ℕ, ◌+◌, ◌≤◌, ◌≡◌, sym, ap, ◌∙◌, inl, inr, some, List, [], ◌∷◌, ◌++◌, ltb, length, take, drop,
  length-append, length-take, length-drop, take-append-drop, append_assoc, arith, Bool-cases,
  Option-cases, some-injective, false, subst,
}
use fareward.Common.Bytes.{from_be}
use fareward.Sequence.Protocol.{take_bytes}
use fareward.Service.Frame.{Frame, FrameRead, stream_end, refused, complete, read_body, read_frame}
use fareward.Service.Opcode.{
  Opcode, opcode_from_byte, max_payload_size, max_frame_size, length_prefix_size, auth_tag_size,
}
use fareward.Service.Opcode.Buffer.{max_payload_size-max_frame_size}

ltb-false : (a b : ℕ) → ltb a b ≡ false → b ≤ a
ltb-false a b h = ground arith

-- All bytes of a frame.
abbrev pub bytes_of : Frame → List ℕ
bytes_of f = f.head ++ f.payload ++ f.received_tag

pub record IsCut (f : Frame) (bytes rest : List ℕ) : Type 0 where
  pub whole : bytes_of f ++ rest ≡ bytes
  pub head_size : length f.head ≡ 3
  pub tag_size : length f.received_tag ≡ auth_tag_size
  pub payload_fits : length f.payload ≤ max_payload_size f.opcode
  pub frame_fits : length (bytes_of f) ≤ max_frame_size

take_bytes-some :
    (n : ℕ) (bytes : List ℕ) (cut : List ℕ × List ℕ)
    → take_bytes n bytes ≡ some cut
    → (length cut.0 ≡ n) × (cut.0 ++ cut.1 ≡ bytes)
take_bytes-some n bytes cut h = elim (Bool-cases (ltb (length bytes) n)) [
  | inl short ↦ absurd (ground (arith, short, h))
  | inr enough ↦
      let e = some-injective (rw enough at h) in
      (
        ap (λ p. length p.0) (sym e)
            ∙ omega (arith, length-take n bytes, ltb-false (length bytes) n enough),
        ap (λ p. p.0 ++ p.1) (sym e) ∙ take-append-drop n bytes,
      )
]

abbrev Cut : List ℕ → FrameRead → Type 0
Cut bytes stream_end = Unit {0}
Cut bytes (refused e) = Unit {0}
Cut bytes (complete f rest) = IsCut f bytes rest

read_body-Cut :
    (opcode : Opcode) (head : List ℕ) (payload_size : ℕ) (bytes : List ℕ)
    → length head ≡ 3
    → Cut (head ++ bytes) (read_body opcode head payload_size bytes)
unfolding read_body
read_body-Cut opcode head payload_size bytes three =
    elim (Bool-cases (ltb (max_payload_size opcode) payload_size)) [
      | inl over ↦ rw (read_body, over) tt
      | inr fits ↦ elim (Option-cases (take_bytes (payload_size + auth_tag_size) bytes)) [
        | inl short ↦ rw (read_body, fits, short) tt
        | inr (cut, there) ↦
            let (size, whole) = take_bytes-some (payload_size + auth_tag_size) bytes cut there in
            rw (read_body, fits, there)
              (record {
                whole =
                    ap (λ b. b ++ cut.1)
                      (append_assoc head (take payload_size cut.0) (drop payload_size cut.0)
                        ∙ ap (λ b. head ++ b) (take-append-drop payload_size cut.0))
                    ∙ append_assoc head cut.0 cut.1
                    ∙ ap (λ b. head ++ b) whole;
                head_size = three;
                tag_size = omega (arith, length-drop payload_size cut.0, size);
                payload_fits = omega (
                  arith,
                  length-take payload_size cut.0,
                  ltb-false (max_payload_size opcode) payload_size fits,
                );
                frame_fits = omega (
                  arith,
                  three,
                  size,
                  length-append (head ++ take payload_size cut.0) (drop payload_size cut.0),
                  length-append head (take payload_size cut.0),
                  length-take payload_size cut.0,
                  length-drop payload_size cut.0,
                  ltb-false (max_payload_size opcode) payload_size fits,
                  max_payload_size-max_frame_size opcode,
                );
              })
      ]
    ]

read_frame-Cut : (bytes : List ℕ) → Cut bytes (read_frame bytes)
unfolding read_frame
read_frame-Cut [] = tt
read_frame-Cut (byte ∷ bytes) = elim (Option-cases (opcode_from_byte byte)) [
  | inl unknown ↦ rw (read_frame, unknown) tt
  | inr (opcode, known) ↦ elim (Option-cases (take_bytes length_prefix_size bytes)) [
    | inl short ↦ rw (read_frame, known, short) tt
    | inr (cut, there) ↦
        let (size, whole) = take_bytes-some length_prefix_size bytes cut there in
        rw (read_frame, known, there)
          (subst (λ all. Cut (byte ∷ all) (read_body opcode (byte ∷ cut.0) (from_be 0 cut.0) cut.1))
            whole
            (read_body-Cut opcode (byte ∷ cut.0) (from_be 0 cut.0) cut.1 (omega (arith, size))))
  ]
]

-- A frame that is read is the front of the stream, byte by byte, with what is left behind it; its
-- head has three bytes and its tag eight, its payload is within the ceiling of its opcode, and all
-- of it fits the buffer.
pub read_frame-IsCut :
    (bytes rest : List ℕ) (f : Frame) → read_frame bytes ≡ complete f rest → IsCut f bytes rest
read_frame-IsCut bytes rest f h = subst (Cut bytes) h (read_frame-Cut bytes)
