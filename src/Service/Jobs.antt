-- ===== src/Service/Jobs.antt =====
-- src/service/server.rs: the handlers that the reader of a connection spawns, with the replies that
-- they make of what the services answer.
use fareward.Common.{ℕ, ◌+◌, Option, none, some, if◌then◌else◌}
use fareward.Common.Int.{ℤ}
use fareward.Common.Result.{Result, ok, err}
use fareward.Limiter.Access.{AccessVerdict, AccessInvalidation, detail_code}
use fareward.Limiter.Gate.{requests_authorization}
use fareward.Limiter.Gate.Charge.{FullDecision, admitted, violated, denied}
use fareward.Limiter.Mutation.{
  BudgetMutation, BudgetMutationReply, done, current_month_not_configured, overflow,
}
use fareward.Limiter.Policy.{Request}
use fareward.Limiter.Protocol.{response_byte}
use fareward.Lock.Registry.{LockKey, LockOutcome}
use fareward.Lock.Protocol.{AcquireRequest, LockReply, lock_reply_code}
use fareward.Sequence.Protocol.{ReserveRequest, SetRequest}
use fareward.Service.Reply.{
  Reply, charge_allowed, charge_granted, charge_credit_violation, charge_access_denied,
  lock_granted, lock_refused, ack, budget_refused, sequence_value, unavailable,
}

-- A guard is known by a number.
pub record HeldLock : Type 0 where
  pub guard : ℕ
  pub generation : ℕ
  pub expires_at : ℕ

pub record AcquireOutcome : Type 0 where
  pub key : LockKey
  pub granted : Option HeldLock

-- The guard with its generation.
pub record LockGuard : Type 0 where
  pub guard : ℕ
  pub generation : ℕ

-- What the services answer: none or an error where they fail.
pub record Services : Type 0 where
  pub admit : Request → Option FullDecision
  pub mutate_budget : BudgetMutation → Option BudgetMutationReply
  pub acquire : AcquireRequest → Result LockOutcome LockGuard
  pub reserve : ReserveRequest → Option ℤ
  pub set : SetRequest → Option ℤ

-- The permits that the handlers hold: sequences have a pool of their own.
pub data Pool : Type 0 where
  general sequences : Pool

-- A handler with the sequence of its frame, up to its last send in `answering`.
pub data Job : Type 0 where
  charging : Request → ℕ → Job
  mutating : BudgetMutation → ℕ → Job
  acquiring : AcquireRequest → ℕ → ℕ → Job
  invalidating : AccessInvalidation → Job
  reserving : ReserveRequest → ℕ → Job
  setting : SetRequest → ℕ → Job
  answering : Pool → ℕ → Reply → Job

unfoldable pub granted_reply : AccessVerdict → Reply
granted_reply v = charge_granted v.granted_mask v.has_subs_mask v.sub_bytes

unfoldable pub charge_reply : Request → Option FullDecision → Reply
unfolding granted_reply response_byte
charge_reply request (some (admitted v)) =
    if requests_authorization request then granted_reply v else charge_allowed
charge_reply request (some (violated violation)) = charge_credit_violation (response_byte violation)
charge_reply request (some (denied denial)) = charge_access_denied (detail_code denial)
charge_reply request none = unavailable

unfoldable pub budget_reply : Option BudgetMutationReply → Reply
budget_reply (some done) = ack
budget_reply (some current_month_not_configured) = budget_refused 1
budget_reply (some overflow) = budget_refused 2
budget_reply none = unavailable

unfoldable pub refusal_of : LockOutcome → LockReply
refusal_of LockOutcome.busy = LockReply.busy
refusal_of LockOutcome.wait_timeout = LockReply.wait_timeout
refusal_of LockOutcome.capacity = LockReply.capacity

-- The reply, and what the reader is to hold. The lease counts from the grant.
unfoldable pub acquire_reply : ℕ → ℕ → Result LockOutcome LockGuard → Reply × Option HeldLock
unfolding refusal_of
acquire_reply lease now (ok g) = (
  lock_granted g.generation,
  some (record { guard = g.guard; generation = g.generation; expires_at = now + lease }),
)
acquire_reply lease now (err outcome) = (lock_refused (lock_reply_code (refusal_of outcome)), none)

unfoldable pub sequence_reply : Option ℤ → Reply
sequence_reply (some value) = sequence_value value
sequence_reply none = unavailable

-- A move of a handler: what it goes on as, what it reports to the reader, and what it sends.
pub record Moved : Type 0 where
  pub next : Option Job
  pub report : Option AcquireOutcome
  pub reply : Option (ℕ × Reply)

abbrev pub to_answer : Pool → ℕ → Reply → Moved
to_answer pool sequence reply = record {
  next = some (answering pool sequence reply);
  report = none;
  reply = none;
}

unfoldable pub move_job : Services → ℕ → Job → Moved
unfolding charge_reply budget_reply acquire_reply sequence_reply
move_job services now (charging request sequence) =
    to_answer general sequence (charge_reply request (services.admit request))
move_job services now (mutating mutation sequence) =
    to_answer general sequence (budget_reply (services.mutate_budget mutation))
move_job services now (acquiring request lease sequence) =
    let (reply, granted) = acquire_reply lease now (services.acquire request) in
    record {
      next = some (answering general sequence reply);
      report = some (record { key = (request.action, request.identifier); granted = granted });
      reply = none;
    }
move_job services now (invalidating invalidation) = record {
  next = none;
  report = none;
  reply = none;
}
move_job services now (reserving request sequence) =
    to_answer sequences sequence (sequence_reply (services.reserve request))
move_job services now (setting request sequence) =
    to_answer sequences sequence (sequence_reply (services.set request))
move_job services now (answering pool sequence reply) = record {
  next = none;
  report = none;
  reply = some (sequence, reply);
}

-- The permit of a handler.
abbrev pub pool_of : Job → Pool
pool_of (reserving request sequence) = sequences
pool_of (setting request sequence) = sequences
pool_of (answering pool sequence reply) = pool
pool_of job = general
