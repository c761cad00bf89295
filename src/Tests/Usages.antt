-- ===== src/Tests/Usages.antt =====
-- src/limiter/aggregation.rs: a usage row under charges and a flush.
use fareward.Common.{◌≡◌, refl, some, [], ◌∷◌, arith}
use fareward.Common.Int.{pos}
use fareward.Limiter.Credits.{Credits}
use fareward.Limiter.Usage.{
  UsageKey, UsageSnapshot, UsageRecord, loaded, increment, credits_at, mark_flushed, snapshot,
}
use fareward.Limiter.Usage.Flush.{
  Row, Steps, none_more, continued, charged, took, wrote, marked, idle, recovered_row,
  is_clean-stored,
}
use fareward.Limiter.Usage.Increment.{increment-credits_at}

abbrev charge : Credits
charge = record { cpu = 4; inference = 1 }

abbrev row : UsageRecord
row = record {
  routes = (3, record { cpu = 6; inference = 0 }) ∷ [];
  version = 0;
  flushed_version = 0;
}

increment-credits_at_example :
    credits_at 3 (increment 3 charge row).0.routes ≡ some (record { cpu = 10; inference = 1 })
unfolding increment
increment-credits_at_example =
    (increment-credits_at 3 charge row (omega arith, omega arith) (omega arith)).1

abbrev dirty : UsageRecord
dirty = record { routes = (3, charge) ∷ []; version = 1; flushed_version = 0 }

abbrev key : UsageKey
key = record { company_id = pos 7; user_id = pos 42; time_frame = pos 105_954_061 }

abbrev taken_snapshot : UsageSnapshot
taken_snapshot = record { key = key; routes = (3, charge) ∷ []; version = 1 }

abbrev flushed : Row
flushed = record {
  memory = record { routes = (3, charge) ∷ []; version = 1; flushed_version = 1 };
  stored = (3, charge) ∷ [];
  phase = idle;
}

flush_run : Steps (recovered_row []) flushed
unfolding loaded increment mark_flushed snapshot
flush_run = continued (charged (loaded []) [] idle 3 charge (omega arith)) (
    continued (took dirty [] key (taken_snapshot) refl) (
      continued (wrote dirty [] (taken_snapshot))
        (continued (marked dirty ((3, charge) ∷ []) (taken_snapshot)) (none_more flushed))))

is_clean-stored_example : flushed.stored ≡ flushed.memory.routes
is_clean-stored_example = is_clean-stored [] flushed flush_run refl
