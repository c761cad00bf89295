-- ===== src/Service/Connection.antt =====
-- src/service/server.rs: `handle_connection`. The reader is the only writer of the locks that the
-- connection holds; it and the handlers take turns in any order. The replies stand in the order in
-- which they are sent, each with the sequence that it is encoded with; channels have room.
use fareward.Common.{
  ℕ, ◌+◌, ◌-◌, Bool, true, false, not, Option, none, some, List, [], ◌∷◌, ◌++◌, map, ltb, ◌==◌,
  if◌then◌else◌,
}
use fareward.Common.KeyMap.{values_of, value_list, get, put, keep_if, take_out}
use fareward.Lock.Registry.{LockKey, key_eq}
use fareward.Lock.Protocol.{ReleaseRequest, LockReply, lock_reply_code}
use fareward.Reqlog.Sink.{RequestLogSink}
use fareward.Service.Jobs.{HeldLock, AcquireOutcome, Pool, general, sequences, Job, pool_of}
use fareward.Service.Reply.{Reply, lock_refused, ack, lock_lost}

-- `inflight` and `sequence_inflight` are the free permits, `reports` what handlers sent to the
-- reader, `dropped` the guards that were dropped.
pub record Connection : Type 0 where
  pub held : List (LockKey × HeldLock)
  pub sequence : ℕ
  pub inflight : ℕ
  pub sequence_inflight : ℕ
  pub handlers : List Job
  pub reports : List AcquireOutcome
  pub sent : List (ℕ × Reply)
  pub logs : RequestLogSink
  pub dropped : List ℕ

abbrev pub guards_of : List (LockKey × HeldLock) → List ℕ
guards_of = values_of (λ lock. lock.guard)

unfoldable pub send : ℕ → Reply → Connection → Connection
send sequence reply c = record c { sent = c.sent ++ (sequence, reply) ∷ [] }

abbrev pub has_permit : Pool → Connection → Bool
has_permit general c = ltb 0 c.inflight
has_permit sequences c = ltb 0 c.sequence_inflight

abbrev pub take_permit : Pool → Connection → Connection
take_permit general c = record c { inflight = c.inflight - 1 }
take_permit sequences c = record c { sequence_inflight = c.sequence_inflight - 1 }

abbrev pub return_permit : Pool → Connection → Connection
return_permit general c = record c { inflight = c.inflight + 1 }
return_permit sequences c = record c { sequence_inflight = c.sequence_inflight + 1 }

unfoldable pub spawn : Job → Connection → Connection
spawn job c = take_permit (pool_of job) (record c { handlers = c.handlers ++ job ∷ [] })

-- The connection, and whether its loop goes on.
abbrev pub Flow : Type 0
Flow = Connection × Bool

abbrev pub go_on : Connection → Flow
go_on c = (c, true)

abbrev pub break : Connection → Flow
break c = (c, false)

-- `drop_expired`, with the pushes of the reader.
abbrev pub is_alive : ℕ → LockKey → HeldLock → Bool
is_alive now key lock = ltb now lock.expires_at

abbrev pub is_expired : ℕ → LockKey → HeldLock → Bool
is_expired now key lock = not (is_alive now key lock)

abbrev pub push_lost : LockKey × HeldLock → ℕ × Reply
push_lost entry = (0, lock_lost entry.0.0 entry.0.1)

unfoldable pub drop_expired : ℕ → Connection → Connection
unfolding keep_if
drop_expired now c =
    let expired = keep_if key_eq (is_expired now) c.held in
    record c {
      held = keep_if key_eq (is_alive now) c.held;
      sent = c.sent ++ map push_lost expired;
      dropped = c.dropped ++ guards_of expired;
    }

abbrev pub guard_list : Option HeldLock → List ℕ
guard_list = value_list (λ lock. lock.guard)

-- What a handler reported is held; a hold that it replaces is dropped.
unfoldable pub keep_granted : AcquireOutcome → Connection → Connection
unfolding get put
keep_granted outcome c = elim outcome.granted [
  | none ↦ c
  | some lock ↦ record c {
    held = put key_eq outcome.key lock c.held;
    dropped = c.dropped ++ guard_list (get key_eq outcome.key c.held);
  }
]

unfoldable pub release : ℕ → ReleaseRequest → Connection → Connection
unfolding get take_out send
release sequence request c =
    let key : LockKey = (request.action, request.identifier) in
    let misuse = send sequence (lock_refused (lock_reply_code LockReply.misuse)) c in
    elim (get key_eq key c.held) [
      | none ↦ misuse
      | some lock ↦
          if lock.generation == request.generation
          then send sequence ack (record c {
            held = take_out key_eq key c.held;
            dropped = c.dropped ++ lock.guard ∷ [];
          })
          else misuse
    ]

-- A handler is spawned where a permit is free; else the fallback is sent.
unfoldable pub spawn_or : ℕ → Reply → Job → Connection → Connection
unfolding spawn send
spawn_or sequence fallback job c =
    if has_permit (pool_of job) c then spawn job c else send sequence fallback c

-- The channel of the reports is open as long as the reader runs.
unfoldable pub take_report : Connection → Connection
unfolding keep_granted
take_report c = elim c.reports [
  | [] ↦ c
  | outcome ∷ reports ↦ keep_granted outcome (record c { reports = reports })
]

-- Behind the loop the handlers are aborted, what is held is dropped, and with the channel what
-- was reported.
unfoldable pub reported_guards : List AcquireOutcome → List ℕ
reported_guards [] = []
reported_guards (outcome ∷ outcomes) = guard_list outcome.granted ++ reported_guards outcomes

unfoldable pub close : Connection → Connection
unfolding reported_guards
close c = record c {
  handlers = [];
  held = [];
  reports = [];
  dropped = c.dropped ++ guards_of c.held ++ reported_guards c.reports;
}
