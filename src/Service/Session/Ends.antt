-- ===== src/Service/Session/Ends.antt =====
-- src/service/server.rs: the loop of the reader over the bytes of a client ends.
use fareward.Common.{
  if_elim, ℕ, zero, suc, ◌+◌, ◌*◌, ◌^◌, ◌≤◌, ◌<◌, ◌≡◌, refl, ap, true, false, Option, none, some,
  List, [], ◌++◌, ltb, if◌then◌else◌, length, length-append, inl, inr, ◌⊎◌, arith, Bool-cases,
}
use fareward.Service.Connection.{Connection, Flow, drop_expired, close}
use fareward.Service.Frame.{Frame, FrameRead, stream_end, refused, complete, read_frame}
use fareward.Service.Frame.Bounds.{bytes_of, read_frame-IsCut}
use fareward.Service.Reader.{
  Setup, arrived, is_authentic, serve_frame, serve_read, select, close_broken, round,
}
use fareward.Service.Session.Sequences.{sequence-dispatch}

-- What follows a frame.
unfoldable pub behind : FrameRead → List ℕ
behind (complete f rest) = rest
behind _ = []

-- The loop while nothing but the bytes of the client comes, none where the fuel does not last.
unfoldable pub serve_bytes : Setup → ℕ → ℕ → List ℕ → Connection → Option Flow
unfolding round read_frame behind
serve_bytes u zero now bytes c = none
serve_bytes u (suc fuel) now bytes c =
    let s = round u now (arrived bytes) c in
    let later = serve_bytes u fuel now (behind (read_frame bytes)) s.0 in
    if s.1 then later else some s

module _ (u : Setup) (now : ℕ) where
  abbrev AtMostOne : Connection → Flow → Type 0
  AtMostOne c s = s.0.sequence ≤ c.sequence + 1

  serve_frame-AtMostOne : (f : Frame) (c : Connection) → AtMostOne c (serve_frame u f c)
  unfolding serve_frame
  serve_frame-AtMostOne f c =
      if_elim (AtMostOne c) (is_authentic u f c)
        (if_elim (AtMostOne c) (ltb (c.sequence + 1) (2 ^ 64))
          (omega (
            arith,
            sequence-dispatch u f.opcode f.payload c.sequence
                (record c { sequence = c.sequence + 1 }),
          ))
          (omega arith))
        (omega arith)

  behind_complete :
      (bytes rest : List ℕ) (f : Frame)
      → read_frame bytes ≡ complete f rest
      → 11 + length rest ≤ length bytes
  behind_complete bytes rest f e =
      let cut = read_frame-IsCut bytes rest f e in
      omega (
        arith,
        ap length cut.whole,
        cut.head_size,
        cut.tag_size,
        length-append (bytes_of f) rest,
        length-append (f.head ++ f.payload) f.received_tag,
        length-append f.head f.payload,
      )

  -- The connection ends with the sequence it had, or a frame was there, with eleven bytes at least.
  abbrev Stepped : List ℕ → FrameRead → Connection → Flow → Type 0
  Stepped bytes r c s =
      ((s.1 ≡ false) × (s.0.sequence ≡ c.sequence))
      ⊎ ((11 + length (behind r) ≤ length bytes) × (s.0.sequence ≤ c.sequence + 1))

  serve_read-Stepped :
      (bytes : List ℕ) (r : FrameRead) (c : Connection)
      → read_frame bytes ≡ r
      → Stepped bytes r c (serve_read u r c)
  unfolding serve_read behind
  serve_read-Stepped bytes stream_end c e = inl (refl, refl)
  serve_read-Stepped bytes (refused failure) c e = inl (refl, refl)
  serve_read-Stepped bytes (complete f rest) c e =
      inr (behind_complete bytes rest f e, serve_frame-AtMostOne f c)

  Stepped-close_broken :
      (bytes : List ℕ) (r : FrameRead) (c : Connection) (s : Flow)
      → Stepped bytes r c s
      → Stepped bytes r c (close_broken s)
  unfolding close
  Stepped-close_broken bytes r c (d, true) h = h
  Stepped-close_broken bytes r c (d, false) h = h

  round-Stepped :
      (bytes : List ℕ) (c : Connection)
      → Stepped bytes (read_frame bytes) c (round u now (arrived bytes) c)
  unfolding round select drop_expired
  round-Stepped bytes c =
      Stepped-close_broken bytes (read_frame bytes) c
        (serve_read u (read_frame bytes) (drop_expired now c))
        (serve_read-Stepped bytes (read_frame bytes) (drop_expired now c) refl)

  -- With more fuel than there are bytes the loop over the bytes of a client comes to its end, the
  -- connection is closed then, and of every eleven bytes at most one frame was taken.
  pub serve_bytes_ends :
      (fuel : ℕ) (bytes : List ℕ) (c : Connection)
      → length bytes < fuel
      → (s : Flow) × (serve_bytes u fuel now bytes c ≡ some s)
        × (s.1 ≡ false)
        × (11 * s.0.sequence ≤ 11 * c.sequence + length bytes)
  unfolding serve_bytes
  serve_bytes_ends zero bytes c enough = absurd (omega (arith, enough))
  serve_bytes_ends (suc fuel) bytes c enough =
      let s : Flow = round u now (arrived bytes) c in
      elim (Bool-cases s.1) [
        | inr over ↦ (
          s,
          rw (serve_bytes, over) refl,
          over,
          elim (round-Stepped bytes c) [
            | inl (ended, same) ↦ omega (arith, same)
            | inr (there, one) ↦ omega (arith, there, one)
          ],
        )
        | inl going ↦ elim (round-Stepped bytes c) [
          | inl (ended, same) ↦ absurd (cc (going, ended))
          | inr (there, one) ↦
              let (last, end, closed, few) =
                serve_bytes_ends fuel (behind (read_frame bytes)) s.0
                  (omega (arith, there, enough)) in
              (last, rw (serve_bytes, going) end, closed, omega (arith, there, one, few))
        ]
      ]
