-- ===== src/Service/Session/Owed.antt =====
-- src/service/server.rs: what a step of the reader answers or owes.
use fareward.Common.{
  if_elim, times, times-append, ℕ, ◌+◌, ◌^◌, ◌≡◌, refl, sym, ap, ◌∙◌, ◌⊎◌, inl, inr, true, false,
  ◌&&◌, List, [], ◌∷◌, ◌++◌, map, ltb, if◌then◌else◌, arith, Bool-cases,
}
use fareward.Common.KeyMap.{keep_if, take_out}
use fareward.Lock.Protocol.{ReleaseRequest, LockReply, lock_reply_code}
use fareward.Lock.Registry.{LockKey, key_eq}
use fareward.Service.Connection.{
  Connection, Flow, has_permit, take_permit, send, spawn, spawn_or, push_lost, is_expired,
  drop_expired, keep_granted, take_report, release,
}
use fareward.Service.Frame.{Frame, FrameRead, stream_end, refused, complete, read_frame}
use fareward.Service.Jobs.{HeldLock, Pool, general, sequences, pool_of, Job, invalidating}
use fareward.Service.Opcode.{Opcode, expects_reply}
use fareward.Service.Reader.{
  Setup, Selected, shutdown, timed_out, read_failed, reported, arrived, dispatch, is_authentic,
  serve_frame, serve_read, select, close_broken, round,
}
use fareward.Service.Reply.{Reply, lock_refused, ack, sequence_invalid, shape}
use fareward.Service.Session.{Event, reader}
use fareward.Service.Session.Branches.{held_elim, release_elim, dispatch_elim, owed_by}
use fareward.Service.Shape.{is_push, shape_byte}

-- The sequences that were answered: a push answers none.
unfoldable pub answered : List (ℕ × Reply) → List ℕ
unfolding is_push shape
answered [] = []
answered ((n, reply) ∷ sent) =
    let rest = answered sent in if is_push (shape reply) then rest else n ∷ rest

unfoldable pub owed : List Job → List ℕ
owed [] = []
owed (job ∷ jobs) = owed_by job ++ owed jobs

-- The frames that the connection takes and that expect a reply.
unfoldable pub accepted_frame : Setup → FrameRead → Connection → List ℕ
unfolding serve_frame expects_reply
accepted_frame u (complete f rest) c =
    if (serve_frame u f c).1 && expects_reply f.opcode then c.sequence ∷ [] else []
accepted_frame u _ c = []

unfoldable pub accepted : Setup → Event → Flow → List ℕ
unfolding read_frame drop_expired accepted_frame
accepted u event (c, false) = []
accepted u (reader now (arrived bytes)) (c, true) =
    accepted_frame u (read_frame bytes) (drop_expired now c)
accepted u event (c, true) = []

module _ (m : ℕ) where
  unfoldable pub answers : Connection → ℕ
  unfolding times answered owed
  answers c = times m (answered c.sent) + times m (owed c.handlers)

  pub times-answered :
      (xs ys : List (ℕ × Reply))
      → times m (answered (xs ++ ys)) ≡ times m (answered xs) + times m (answered ys)
  unfolding times answered
  times-answered [] ys = omega arith
  times-answered ((n, reply) ∷ xs) ys = ground (arith, times-answered xs ys)

  pub times-owed :
      (xs ys : List Job) → times m (owed (xs ++ ys)) ≡ times m (owed xs) + times m (owed ys)
  unfolding times owed
  times-owed [] ys = omega arith
  times-owed (x ∷ xs) ys = omega (
    arith,
    times-owed xs ys,
    times-append m (owed_by x) (owed (xs ++ ys)),
    times-append m (owed_by x) (owed xs),
  )

  answered_pushes : (xs : List (LockKey × HeldLock)) → answered (map push_lost xs) ≡ []
  unfolding answered is_push shape shape_byte
  answered_pushes [] = refl
  answered_pushes (x ∷ xs) = answered_pushes xs

  answers-drop_expired : (now : ℕ) (c : Connection) → answers (drop_expired now c) ≡ answers c
  unfolding answers drop_expired times
  answers-drop_expired now c =
      let expired = keep_if key_eq (is_expired now) c.held in
      let nothing = ap (times m) (answered_pushes expired) in
      omega (arith, times-answered c.sent (map push_lost expired), nothing)

  answers-send :
      (n : ℕ) (reply : Reply) (c : Connection)
      → is_push (shape reply) ≡ false
      → answers (send n reply c) ≡ answers c + times m (n ∷ [])
  unfolding answers send times answered
  answers-send n reply c e = ground (arith, e, times-answered c.sent ((n, reply) ∷ []))

  answers-take_permit : (pool : Pool) (c : Connection) → answers (take_permit pool c) ≡ answers c
  unfolding answers
  answers-take_permit general c = refl
  answers-take_permit sequences c = refl

  answers-spawn :
      (job : Job) (c : Connection) → answers (spawn job c) ≡ answers c + times m (owed_by job)
  unfolding answers spawn owed times
  answers-spawn job c =
      answers-take_permit (pool_of job) (record c { handlers = c.handlers ++ job ∷ [] })
      ∙ omega (arith, times-owed c.handlers (job ∷ []), times-append m (owed_by job) [])

  answers-spawn_or :
      (n : ℕ) (fallback : Reply) (job : Job) (c : Connection)
      → owed_by job ≡ n ∷ []
      → is_push (shape fallback) ≡ false
      → answers (spawn_or n fallback job c) ≡ answers c + times m (n ∷ [])
  unfolding spawn_or
  answers-spawn_or n fallback job c e f =
      if_elim (λ d. answers d ≡ answers c + times m (n ∷ [])) (has_permit (pool_of job) c)
        (answers-spawn job c ∙ ap (λ ns. answers c + times m ns) e) (answers-send n fallback c f)

  answers-release :
      (n : ℕ) (request : ReleaseRequest) (c : Connection)
      → answers (release n request c) ≡ answers c + times m (n ∷ [])
  unfolding answers is_push shape shape_byte
  answers-release n request c =
      release_elim (λ d. answers d ≡ answers c + times m (n ∷ [])) n request c
        (answers-send n (lock_refused (lock_reply_code LockReply.misuse)) c refl)
        (λ lock found same.
          answers-send n ack
            (record c {
              held = take_out key_eq (request.action, request.identifier) c.held;
              dropped = c.dropped ++ lock.guard ∷ [];
            })
            refl)

  -- A frame that ends the connection, or one that is answered or owed an answer as it expects.
  abbrev Owing : Connection → ℕ → Opcode → Flow → Type 0
  Owing c n o s =
      (s.1 ≡ false) ⊎ (answers s.0 ≡ answers c + times m (if expects_reply o then n ∷ [] else []))

  answers-dispatch :
      (u : Setup) (opcode : Opcode) (payload : List ℕ) (n : ℕ) (c : Connection)
      → Owing c n opcode (dispatch u opcode payload n c)
  unfolding answers times is_push shape shape_byte expects_reply
  answers-dispatch u opcode payload n c =
      dispatch_elim (Owing c n) u payload n c (λ o. inl refl) (λ o e. inr (rw e (omega arith)))
        (λ o job fallback e f g. inr (rw e (answers-spawn_or n fallback job c f g)))
        (λ o e. inr (rw e (answers-send n sequence_invalid c refl)))
        (λ request e. inr (answers-release n request c)) (λ logs. inr (omega arith))
        (λ i. inr (answers-spawn (invalidating i) c)) opcode

  answers-serve_frame :
      (u : Setup) (f : Frame) (c : Connection) → Owing c c.sequence f.opcode (serve_frame u f c)
  unfolding serve_frame answers
  answers-serve_frame u f c =
      if_elim (Owing c c.sequence f.opcode) (is_authentic u f c)
        (if_elim (Owing c c.sequence f.opcode) (ltb (c.sequence + 1) (2 ^ 64))
          (answers-dispatch u f.opcode f.payload c.sequence
            (record c { sequence = c.sequence + 1 }))
          (inl refl))
        (inl refl)

  abbrev pub Gains : Connection → List ℕ → Flow → Type 0
  Gains c ns s = (s.1 ≡ false) ⊎ (answers s.0 ≡ answers c + times m ns)

  answers-serve_read :
      (u : Setup) (r : FrameRead) (c : Connection)
      → Gains c (accepted_frame u r c) (serve_read u r c)
  unfolding serve_read accepted_frame
  answers-serve_read u stream_end c = inl refl
  answers-serve_read u (refused e) c = inl refl
  answers-serve_read u (complete f rest) c = elim (answers-serve_frame u f c) [
    | inl ended ↦ inl ended
    | inr gained ↦ elim (Bool-cases (serve_frame u f c).1) [
      | inr ended ↦ inl ended
      | inl going ↦ inr (rw going gained)
    ]
  ]

  answers-take_report : (c : Connection) → answers (take_report c) ≡ answers c
  unfolding answers take_report keep_granted
  answers-take_report c = ground arith

  answers-select :
      (u : Setup) (now : ℕ) (selected : Selected) (c : Connection)
      → Gains
          (drop_expired now c)
          (accepted u (reader now selected) (c, true))
          (select u selected (drop_expired now c))
  unfolding select accepted times
  answers-select u now shutdown c = inl refl
  answers-select u now reported c = inr (omega (arith, answers-take_report (drop_expired now c)))
  answers-select u now timed_out c =
      held_elim (Gains (drop_expired now c) []) (drop_expired now c).held (inl refl)
        (inr (omega arith))
  answers-select u now read_failed c = inl refl
  answers-select u now (arrived bytes) c =
      answers-serve_read u (read_frame bytes) (drop_expired now c)

  Gains-close_broken :
      (c : Connection) (ns : List ℕ) (s : Flow) → Gains c ns s → Gains c ns (close_broken s)
  Gains-close_broken c ns (d, true) h = h
  Gains-close_broken c ns (d, false) h = inl refl

  pub answers-round :
      (u : Setup) (now : ℕ) (selected : Selected) (c : Connection)
      → Gains c (accepted u (reader now selected) (c, true)) (round u now selected c)
  unfolding round
  answers-round u now selected c =
      Gains-close_broken c (accepted u (reader now selected) (c, true))
        (select u selected (drop_expired now c))
        (rw (sym (answers-drop_expired now c)) (answers-select u now selected c))
