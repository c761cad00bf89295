-- ===== src/Service/Session/Sequences.antt =====
-- src/service/server.rs: the sequences of the frames that a connection takes go up.
use fareward.Common.{
  if_elim, times, times-append, ℕ, ◌+◌, ◌^◌, ◌≤◌, ◌≡◌, refl, ◌⊎◌, inl, inr, true, false, ◌&&◌,
  Option, none, some, List, [], ◌∷◌, ◌++◌, ltb, get_elem?, arith, Bool-cases, Option-cases,
}
use fareward.Reqlog.Sink.{RequestLogSink}
use fareward.Service.Connection.{
  Connection, Flow, has_permit, return_permit, take_permit, send, spawn, spawn_or, drop_expired,
  keep_granted, take_report, close,
}
use fareward.Service.Frame.{Frame, FrameRead, stream_end, refused, complete, read_frame}
use fareward.Service.Jobs.{Services, Pool, general, sequences, pool_of, Job, invalidating, move_job}
use fareward.Service.Opcode.{Opcode, expects_reply}
use fareward.Service.Reader.{
  Setup, Selected, shutdown, timed_out, read_failed, reported, arrived, dispatch, is_authentic,
  serve_frame, serve_read, select, close_broken, round,
}
use fareward.Service.Session.{
  Event, reader, handler, opened, free_permit, settle, advance, step, run,
}
use fareward.Service.Session.Answers.{accepted_in, answers-run}
use fareward.Service.Session.Branches.{held_elim, release_elim, dispatch_elim}
use fareward.Service.Session.Owed.{answered, owed, answers, accepted_frame, accepted}

abbrev Keeps : Connection → Connection → Type 0
Keeps c d = d.sequence ≡ c.sequence

sequence-take_permit : (pool : Pool) (c : Connection) → Keeps c (take_permit pool c)
sequence-take_permit general c = refl
sequence-take_permit sequences c = refl

sequence-return_permit : (pool : Pool) (c : Connection) → Keeps c (return_permit pool c)
sequence-return_permit general c = refl
sequence-return_permit sequences c = refl

sequence-spawn : (job : Job) (c : Connection) → Keeps c (spawn job c)
unfolding spawn
sequence-spawn job c =
    sequence-take_permit (pool_of job) (record c { handlers = c.handlers ++ job ∷ [] })

pub sequence-dispatch :
    (u : Setup) (opcode : Opcode) (payload : List ℕ) (n : ℕ) (c : Connection)
    → Keeps c (dispatch u opcode payload n c).0
unfolding send spawn_or
sequence-dispatch u opcode payload n c =
    dispatch_elim (λ o s. Keeps c s.0) u payload n c (λ o. refl) (λ o e. refl)
      (λ o job fallback e f g.
        if_elim (Keeps c) (has_permit (pool_of job) c) (sequence-spawn job c) refl)
      (λ o e. refl) (λ request e. release_elim (Keeps c) n request c refl (λ lock found same. refl))
      (λ logs. refl) (λ i. sequence-spawn (invalidating i) c) opcode

-- A frame that is taken raises the sequence by one.
abbrev Raised : Connection → Flow → Type 0
Raised c s = ((s.1 ≡ false) × (c.sequence ≤ s.0.sequence)) ⊎ (s.0.sequence ≡ c.sequence + 1)

serve_frame-Raised : (u : Setup) (f : Frame) (c : Connection) → Raised c (serve_frame u f c)
unfolding serve_frame
serve_frame-Raised u f c =
    if_elim (Raised c) (is_authentic u f c)
      (if_elim (Raised c) (ltb (c.sequence + 1) (2 ^ 64))
        (inr (
          sequence-dispatch u f.opcode f.payload c.sequence
            (record c { sequence = c.sequence + 1 })))
        (inl (refl, omega arith)))
      (inl (refl, omega arith))

-- What is accepted has the sequence of before, which is then gone by.
abbrev Grows : Connection → List ℕ → Flow → Type 0
Grows c ns s =
    ((ns ≡ []) × (c.sequence ≤ s.0.sequence))
    ⊎ ((ns ≡ c.sequence ∷ []) × (s.0.sequence ≡ c.sequence + 1))

serve_read-Grows :
    (u : Setup) (r : FrameRead) (c : Connection) → Grows c (accepted_frame u r c) (serve_read u r c)
unfolding serve_read accepted_frame
serve_read-Grows u stream_end c = inl (refl, omega arith)
serve_read-Grows u (refused e) c = inl (refl, omega arith)
serve_read-Grows u (complete f rest) c = elim (serve_frame-Raised u f c) [
  | inl ended ↦ inl (rw (accepted_frame, ended.0) refl, ended.1)
  | inr raised ↦ elim (Bool-cases ((serve_frame u f c).1 && expects_reply f.opcode)) [
    | inl taken ↦ inr (rw (accepted_frame, taken) refl, raised)
    | inr left ↦ inl (rw (accepted_frame, left) refl, omega (arith, raised))
  ]
]

sequence-take_report : (c : Connection) → Keeps c (take_report c)
unfolding take_report keep_granted
sequence-take_report c = ground arith

select-Grows :
    (u : Setup) (now : ℕ) (selected : Selected) (c : Connection)
    → Grows c (accepted u (reader now selected) (c, true)) (select u selected (drop_expired now c))
unfolding select accepted drop_expired
select-Grows u now shutdown c = inl (refl, omega arith)
select-Grows u now reported c = inl (refl, omega (arith, sequence-take_report (drop_expired now c)))
select-Grows u now timed_out c =
    held_elim (Grows c []) (drop_expired now c).held (inl (refl, omega arith))
      (inl (refl, omega arith))
select-Grows u now read_failed c = inl (refl, omega arith)
select-Grows u now (arrived bytes) c = serve_read-Grows u (read_frame bytes) (drop_expired now c)

pub sequence-close_broken : (s : Flow) → Keeps s.0 (close_broken s).0
unfolding close
sequence-close_broken (c, true) = refl
sequence-close_broken (c, false) = refl

sequence-free_permit :
    (job : Job) (next : Option Job) (c : Connection) → Keeps c (free_permit job next c)
sequence-free_permit job none c = sequence-return_permit (pool_of job) c
sequence-free_permit job (some next) c = refl

sequence-advance :
    (services : Services) (now i : ℕ) (c : Connection) → Keeps c (advance services now i c)
unfolding advance settle
sequence-advance services now i c = elim (Option-cases (get_elem? c.handlers i)) [
  | inl missing ↦ rw (advance, missing) refl
  | inr (job, found) ↦
      rw (advance, found) (sequence-free_permit job (move_job services now job).next _)
]

step-Grows :
    (u : Setup) (event : Event) (s : Flow) → Grows s.0 (accepted u event s) (step u event s)
unfolding step round accepted
step-Grows u (reader now selected) (c, true) = ground (
  arith,
  select-Grows u now selected c,
  sequence-close_broken (select u selected (drop_expired now c)),
)
step-Grows u (handler services now i) (c, true) =
    inl (refl, omega (arith, sequence-advance services now i c))
step-Grows u (reader now selected) (c, false) = inl (refl, omega arith)
step-Grows u (handler services now i) (c, false) = inl (refl, omega arith)

once :
    (m k k' : ℕ) (ns rest : List ℕ)
    → ((ns ≡ []) × (k ≤ k')) ⊎ ((ns ≡ k ∷ []) × (k' ≡ k + 1))
    → (times m rest ≤ 1) × ((k' ≤ m) ⊎ (times m rest ≡ 0))
    → (times m (ns ++ rest) ≤ 1) × ((k ≤ m) ⊎ (times m (ns ++ rest) ≡ 0))
unfolding times
once m k k' ns rest (inl (none_here, le)) h = rw none_here (ground (arith, le, h))
once m k k' ns rest (inr (one, next)) h = rw one (ground (arith, next, h))

-- No sequence is accepted twice, and none below that of the connection.
accepted_in_once :
    (m : ℕ) (u : Setup) (events : List Event) (s : Flow)
    → (times m (accepted_in u events s) ≤ 1)
      × ((s.0.sequence ≤ m) ⊎ (times m (accepted_in u events s) ≡ 0))
unfolding accepted_in times
accepted_in_once m u [] s = (omega arith, inr refl)
accepted_in_once m u (event ∷ events) s =
    once m s.0.sequence (step u event s).0.sequence (accepted u event s) _ (step-Grows u event s)
      (accepted_in_once m u events (step u event s))

-- As long as a connection is open, the sequences of the replies that were sent, and of those that
-- its handlers are to send, are those of the frames that it took and that expect a reply, and no
-- sequence is among them twice.
pub run-answers :
    (u : Setup) (logs : RequestLogSink) (max_inflight : ℕ) (events : List Event) (m : ℕ)
    → let s : Flow = run u events (opened logs max_inflight, true) in
      let taken : List ℕ = accepted_in u events (opened logs max_inflight, true) in
      ((s.1 ≡ false) ⊎ (times m (answered s.0.sent ++ owed s.0.handlers) ≡ times m taken))
      × (times m taken ≤ 1)
unfolding opened answers times answered owed
run-answers u logs max_inflight events m =
    let start : Flow = (opened logs max_inflight, true) in
    let s : Flow = run u events start in
    let both = times-append m (answered s.0.sent) (owed s.0.handlers) in
    (
      elim (answers-run m u events start) [
        | inl ended ↦ inl ended
        | inr gained ↦ inr (omega (arith, gained, both))
      ],
      (accepted_in_once m u events start).0,
    )
