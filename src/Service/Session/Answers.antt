-- ===== src/Service/Session/Answers.antt =====
-- src/service/server.rs: which frames are answered, and how often.
use fareward.Common.{
  if_elim, times, times-append, splice, ℕ, zero, suc, ◌+◌, ◌≡◌, refl, ap, ◌∙◌, ◌⊎◌, inl, inr, true,
  false, Option, none, some, List, [], ◌∷◌, ◌++◌, get_elem?, arith, Option-cases,
}
use fareward.Common.Int.{ℤ}
use fareward.Common.Result.{Result}
use fareward.Limiter.Gate.{requests_authorization}
use fareward.Limiter.Gate.Charge.{FullDecision, admitted, violated, denied}
use fareward.Limiter.Mutation.{BudgetMutationReply}
use fareward.Limiter.Policy.{Request}
use fareward.Lock.Registry.{LockOutcome}
use fareward.Service.Connection.{Connection, Flow, return_permit}
use fareward.Service.Jobs.{
  Services, Pool, pool_of, general, sequences, Job, charging, mutating, acquiring, invalidating,
  reserving, setting, answering, Moved, move_job, charge_reply, budget_reply, acquire_reply,
  sequence_reply, LockGuard,
}
use fareward.Service.Reader.{Setup}
use fareward.Service.Reply.{Reply, shape}
use fareward.Service.Session.{
  Event, reader, handler, listed, free_permit, settle, advance, step, run,
}
use fareward.Service.Session.Branches.{owed_by}
use fareward.Service.Session.Owed.{
  answered, owed, accepted, answers, times-answered, times-owed, answers-round,
}
use fareward.Service.Shape.{is_push, shape_byte}

unfoldable pub accepted_in : Setup → List Event → Flow → List ℕ
unfolding accepted step
accepted_in u [] s = []
accepted_in u (event ∷ events) s = accepted u event s ++ accepted_in u events (step u event s)

abbrev Answer : Reply → Type 0
Answer reply = is_push (shape reply) ≡ false

charge_reply-Answer :
    (request : Request) (d : Option FullDecision) → Answer (charge_reply request d)
unfolding charge_reply is_push shape shape_byte
charge_reply-Answer request none = refl
charge_reply-Answer request (some (admitted v)) =
    if_elim Answer (requests_authorization request) refl refl
charge_reply-Answer request (some (violated v)) = refl
charge_reply-Answer request (some (denied d)) = refl

budget_reply-Answer : (d : Option BudgetMutationReply) → Answer (budget_reply d)
unfolding budget_reply is_push shape shape_byte
budget_reply-Answer d = ground arith

acquire_reply-Answer :
    (lease now : ℕ) (r : Result LockOutcome LockGuard) → Answer (acquire_reply lease now r).0
unfolding acquire_reply is_push shape shape_byte
acquire_reply-Answer lease now r = ground arith

sequence_reply-Answer : (r : Option ℤ) → Answer (sequence_reply r)
unfolding sequence_reply is_push shape shape_byte
sequence_reply-Answer r = ground arith

module _ (m : ℕ) where
  -- A move of a handler keeps what it owes or answers it.
  abbrev Passes : Job → Moved → Type 0
  Passes job moved =
      times m (owed (listed moved.next)) + times m (answered (listed moved.reply))
      ≡ times m (owed_by job)

  move_job-Passes :
      (services : Services) (now : ℕ) (job : Job) → Passes job (move_job services now job)
  unfolding move_job times owed answered
  move_job-Passes services now (charging request n) =
      ground (arith, charge_reply-Answer request (services.admit request))
  move_job-Passes services now (mutating mutation n) =
      ground (arith, budget_reply-Answer (services.mutate_budget mutation))
  move_job-Passes services now (acquiring request lease n) =
      ground (arith, acquire_reply-Answer lease now (services.acquire request))
  move_job-Passes services now (invalidating invalidation) = omega arith
  move_job-Passes services now (reserving request n) =
      ground (arith, sequence_reply-Answer (services.reserve request))
  move_job-Passes services now (setting request n) =
      ground (arith, sequence_reply-Answer (services.set request))
  move_job-Passes services now (answering pool n reply) = ground arith

  owed-splice :
      (i : ℕ) (ys jobs : List Job) (job : Job)
      → get_elem? jobs i ≡ some job
      → times m (owed (splice i ys jobs)) + times m (owed_by job)
        ≡ times m (owed jobs) + times m (owed ys)
  unfolding splice owed
  owed-splice i ys [] job e = cc
  owed-splice zero ys (x ∷ xs) job e =
      let same : x ≡ job = cc in
      let size = ap (λ j. times m (owed_by j)) same in
      omega (arith, size, times-owed m ys xs, times-append m (owed_by x) (owed xs))
  owed-splice (suc i) ys (x ∷ xs) job e = omega (
    arith,
    owed-splice i ys xs job e,
    times-append m (owed_by x) (owed (splice i ys xs)),
    times-append m (owed_by x) (owed xs),
  )

  answers-return_permit :
      (pool : Pool) (c : Connection) → answers m (return_permit pool c) ≡ answers m c
  unfolding answers
  answers-return_permit general c = refl
  answers-return_permit sequences c = refl

  answers-free_permit :
      (job : Job) (next : Option Job) (c : Connection)
      → answers m (free_permit job next c) ≡ answers m c
  answers-free_permit job none c = answers-return_permit (pool_of job) c
  answers-free_permit job (some next) c = refl

  answers-settle :
      (i : ℕ) (job : Job) (moved : Moved) (c : Connection)
      → get_elem? c.handlers i ≡ some job
      → Passes job moved
      → answers m (settle i job moved c) ≡ answers m c
  unfolding answers settle
  answers-settle i job moved c e passes =
      let sends = times-answered m c.sent (listed moved.reply) in
      let runs = owed-splice i (listed moved.next) c.handlers job e in
      answers-free_permit job moved.next (record c {
        handlers = splice i (listed moved.next) c.handlers;
        reports = c.reports ++ listed moved.report;
        sent = c.sent ++ listed moved.reply;
      })
      ∙ omega (arith, passes, sends, runs)

  answers-advance :
      (services : Services) (now i : ℕ) (c : Connection)
      → answers m (advance services now i c) ≡ answers m c
  unfolding advance
  answers-advance services now i c = elim (Option-cases (get_elem? c.handlers i)) [
    | inl missing ↦ rw (advance, missing) refl
    | inr (job, found) ↦
        rw (advance, found)
          (answers-settle i job (move_job services now job) c found
            (move_job-Passes services now job))
  ]

  answers-step :
      (u : Setup) (event : Event) (s : Flow)
      → ((step u event s).1 ≡ false)
        ⊎ (answers m (step u event s).0 ≡ answers m s.0 + times m (accepted u event s))
  unfolding step accepted times
  answers-step u (reader now selected) (c, true) = answers-round m u now selected c
  answers-step u (handler services now i) (c, true) =
      inr (omega (arith, answers-advance services now i c))
  answers-step u (reader now selected) (c, false) = inl refl
  answers-step u (handler services now i) (c, false) = inl refl

  step_ended : (u : Setup) (event : Event) (s : Flow) → s.1 ≡ false → (step u event s).1 ≡ false
  unfolding step
  step_ended u (reader now selected) (c, true) e = cc
  step_ended u (handler services now i) (c, true) e = cc
  step_ended u (reader now selected) (c, false) e = refl
  step_ended u (handler services now i) (c, false) e = refl

  run_ended :
      (u : Setup) (events : List Event) (s : Flow) → s.1 ≡ false → (run u events s).1 ≡ false
  unfolding run
  run_ended u [] s e = e
  run_ended u (event ∷ events) s e = run_ended u events (step u event s) (step_ended u event s e)

  pub answers-run :
      (u : Setup) (events : List Event) (s : Flow)
      → ((run u events s).1 ≡ false)
        ⊎ (answers m (run u events s).0 ≡ answers m s.0 + times m (accepted_in u events s))
  unfolding run accepted_in times
  answers-run u [] s = inr (omega arith)
  answers-run u (event ∷ events) s = elim (answers-step u event s) [
    | inl ended ↦ inl (run_ended u events (step u event s) ended)
    | inr gained ↦ elim (answers-run u events (step u event s)) [
      | inl ended ↦ inl ended
      | inr later ↦ inr (
          omega (
            arith,
            gained,
            later,
            times-append m (accepted u event s) (accepted_in u events (step u event s)),
          ))
    ]
  ]
