-- ===== src/Reqlog/Sink.antt =====
-- src/reqlog/writer.rs: `RequestLogSink`, the queue in front of the writer.
use fareward.Common.{
  ℕ, ◌+◌, ◌%◌, ◌^◌, Option, none, some, List, [], ◌∷◌, ◌++◌, ltb, if◌then◌else◌, length,
}
use fareward.Reqlog.Record.{RequestLogRecord}

-- The two counters that the sink raises.
pub record RequestLogMetrics : Type 0 where
  pub queued : ℕ
  pub dropped_queue_full : ℕ

-- A channel of the runtime that is bounded, with what is in it.
pub record LogQueue : Type 0 where
  pub capacity : ℕ
  pub waiting : List RequestLogRecord

pub record RequestLogSink : Type 0 where
  pub sender : Option LogQueue
  pub metrics : RequestLogMetrics

abbrev pub disabled : RequestLogSink
disabled = record { sender = none; metrics = record { queued = 0; dropped_queue_full = 0 } }

abbrev pub next_u64 : ℕ → ℕ
next_u64 n = (n + 1) % 2 ^ 64

unfoldable pub submit : RequestLogRecord → RequestLogSink → RequestLogSink
submit r sink = elim sink.sender [
  | none ↦ sink
  | some q ↦
      if ltb (length q.waiting) q.capacity
      then record sink {
        sender = some (record q { waiting = q.waiting ++ r ∷ [] });
        metrics = record sink.metrics { queued = next_u64 sink.metrics.queued };
      }
      else record sink {
        metrics = record sink.metrics {
          dropped_queue_full = next_u64 sink.metrics.dropped_queue_full;
        };
      }
]
