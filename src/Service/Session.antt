-- ===== src/Service/Session.antt =====
-- src/service/server.rs: a connection from its start, while its reader and its handlers move in any
-- order. A session is the connection and whether it is open.
pub mod Kept
pub mod Guards
pub mod Owed
pub mod Answers
pub mod Sequences
pub mod Holds
pub mod Ends
pub mod Branches
use fareward.Common.{
  splice, ℕ, zero, suc, ◌+◌, Bool, true, false, Option, none, some, List, [], ◌∷◌, ◌++◌, get_elem?,
}
use fareward.Reqlog.Sink.{RequestLogSink}
use fareward.Service.Connection.{Connection, Flow, return_permit}
use fareward.Service.Jobs.{AcquireOutcome, Services, Job, Moved, move_job, pool_of}
use fareward.Service.Reader.{Setup, Selected, round}
use fareward.Service.Reply.{Reply}

unfoldable pub opened : RequestLogSink → ℕ → Connection
opened logs max_inflight = record {
  held = [];
  sequence = 0;
  inflight = max_inflight;
  sequence_inflight = max_inflight;
  handlers = [];
  reports = [];
  sent = [];
  logs = logs;
  dropped = [];
}

abbrev pub listed {ℓ} : {A : Type ℓ} → Option A → List A
listed none = []
listed (some a) = a ∷ []

-- A handler that ends gives its permit back.
abbrev pub free_permit : Job → Option Job → Connection → Connection
free_permit job none c = return_permit (pool_of job) c
free_permit job (some next) c = c

unfoldable pub settle : ℕ → Job → Moved → Connection → Connection
unfolding splice
settle i job moved c = free_permit job moved.next (record c {
  handlers = splice i (listed moved.next) c.handlers;
  reports = c.reports ++ listed moved.report;
  sent = c.sent ++ listed moved.reply;
})

-- A handler moves, by its place among those that run.
unfoldable pub advance : Services → ℕ → ℕ → Connection → Connection
unfolding settle move_job
advance services now i c = elim (get_elem? c.handlers i) [
  | none ↦ c
  | some job ↦ settle i job (move_job services now job) c
]

pub data Event : Type 0 where
  reader : ℕ → Selected → Event
  handler : Services → ℕ → ℕ → Event

module _ (u : Setup) where
  unfoldable pub step : Event → Flow → Flow
  unfolding round advance
  step (reader now selected) (c, true) = round u now selected c
  step (handler services now i) (c, true) = (advance services now i c, true)
  step event (c, false) = (c, false)

  unfoldable pub run : List Event → Flow → Flow
  unfolding step
  run [] s = s
  run (event ∷ events) s = run events (step event s)
