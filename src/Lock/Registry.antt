-- ===== src/Lock/Registry.antt =====
-- src/lock/registry.rs: the registry, and the steps of `acquire` and of the drop of a guard between
-- which other tasks run: each takes the lock of a shard once or is one atomic operation. The shards
-- are one map, since a key always goes to the same one. Entries are numbered as they are made.
use fareward.Common.{
  ℕ, min, suc, ◌+◌, ◌-◌, ◌%◌, ◌^◌, ◌≡◌, arith, Bool, true, false, ◌&&◌, Option, none, some, leb,
  ◌==◌, if◌then◌else◌,
}
use fareward.Common.Int.{ℤ, eqb_ℤ}
use fareward.Lock.Semaphore.{Semaphore}
use fareward.Lock.Tasks.{put}

-- The action and the identifier.
abbrev pub LockKey : Type 0
LockKey = ℕ × ℤ

unfoldable pub key_eq : LockKey → LockKey → Bool
key_eq a b = a.0 == b.0 && eqb_ℤ a.1 b.1

pub key_eq_same : (k : LockKey) → key_eq k k ≡ true
unfolding key_eq
key_eq_same k = ground arith

pub key_eq_sound : (k k' : LockKey) → key_eq k k' ≡ true → k ≡ k'
unfolding key_eq
key_eq_sound k k' h = ground arith

pub record LockLimits : Type 0 where
  pub max_keys : ℕ
  pub max_total_waiters : ℕ
  pub max_lease : ℕ

abbrev pub clamp_lease : LockLimits → ℕ → ℕ
clamp_lease limits lease = min lease limits.max_lease

pub data LockOutcome : Type 0 where
  busy wait_timeout capacity : LockOutcome

-- Where a task stands in `acquire`, or in the drop of its guard, with a handle on an entry. In
-- `returning` and `dropping` it is about to drop that handle.
pub data Stage : Type 0 where
  entered contended : ℕ → Stage
  queued_key : ℕ → ℕ → Stage
  queued_both : ℕ → ℕ → ℕ → Stage
  waiting granted regranted released dropping : Stage
  leaving left_key : Option LockOutcome → Stage
  holding : ℕ → Stage
  pruning returning : LockOutcome → Stage

pub data Phase : Type 0 where
  idle : Phase
  answered : LockOutcome → Phase
  inside : LockKey → ℕ → Stage → Phase

abbrev pub u32 : ℕ
u32 = 2 ^ 32

abbrev pub u16 : ℕ
u16 = 2 ^ 16

-- `fetch_sub(1)`
abbrev pub pred_u32 : ℕ → ℕ
pred_u32 n = (n + u32 - 1) % u32

module _ (S : Semaphore) where
  pub record LockEntry : Type 0 where
    pub semaphore : S.Sem
    pub queued : ℕ

  pub record LockRegistry : Type 0 where
    pub map : LockKey → Option ℕ
    pub entries : ℕ → LockEntry
    pub next_entry : ℕ
    pub total_queued : ℕ
    pub key_count : ℕ
    pub next_generation : ℕ

  abbrev pub Moved : Type 0
  Moved = LockRegistry × Phase

  abbrev pub new_entry : LockEntry
  new_entry = record { semaphore = S.new; queued = 0 }

  unfoldable pub entry_for : LockLimits → LockKey → LockRegistry → LockRegistry × Option ℕ
  unfolding key_eq
  entry_for limits key r = elim (r.map key) [
    | some e ↦ (r, some e)
    | none ↦ if leb limits.max_keys r.key_count then (r, none) else (
      record r {
        map = λ k. if key_eq k key then some r.next_entry else r.map k;
        entries = put r.next_entry new_entry r.entries;
        next_entry = suc r.next_entry;
        key_count = r.key_count + 1;
      },
      some r.next_entry,
    )
  ]

  unfoldable pub enter : LockLimits → LockKey → ℕ → LockRegistry → Moved
  unfolding entry_for
  enter limits key max_waiters r =
      let (r', found) = entry_for limits key r in
      (r', elim found [ none ↦ answered capacity | some e ↦ inside key e (entered max_waiters) ])

  abbrev pub set_semaphore : ℕ → S.Sem → LockRegistry → LockRegistry
  set_semaphore e s r = record r {
    entries = put e (record (r.entries e) { semaphore = s }) r.entries;
  }

  abbrev pub set_queued : ℕ → ℕ → LockRegistry → LockRegistry
  set_queued e n r = record r { entries = put e (record (r.entries e) { queued = n }) r.entries }

  unfoldable pub try_permit : LockKey → ℕ → ℕ → LockRegistry → Moved
  try_permit key e max_waiters r = elim (S.try_acquire (r.entries e).semaphore) [
    | none ↦ (r, inside key e (contended max_waiters))
    | some s ↦ (set_semaphore e s r, inside key e granted)
  ]

  abbrev pub join_key : LockKey → ℕ → ℕ → LockRegistry → Moved
  join_key key e max_waiters r =
      let before = (r.entries e).queued in
      (set_queued e ((before + 1) % u32) r, inside key e (queued_key max_waiters before))

  abbrev pub join_total : LockKey → ℕ → ℕ → ℕ → LockRegistry → Moved
  join_total key e max_waiters queued_before r = (
    record r { total_queued = (r.total_queued + 1) % u32 },
    inside key e (queued_both max_waiters queued_before r.total_queued),
  )

  -- Admission in front of the queue, and the first poll of the wait.
  unfoldable pub admit_waiter : LockLimits → ℕ → LockKey → ℕ → ℕ → ℕ → ℕ → LockRegistry → Moved
  admit_waiter limits task key e max_waiters queued_before total_before r =
      if leb max_waiters queued_before
      then (r, inside key e (leaving (some busy)))
      else if leb limits.max_total_waiters total_before
      then (r, inside key e (leaving (some capacity)))
      else (set_semaphore e (S.enqueue task (r.entries e).semaphore) r, inside key e waiting)

  -- The semaphore is never closed, so that a wait does not end by that.
  unfoldable pub poll_wait : ℕ → LockKey → ℕ → LockRegistry → Moved
  poll_wait task key e r = elim (S.poll task (r.entries e).semaphore) [
    | none ↦ (r, inside key e waiting)
    | some s ↦ (set_semaphore e s r, inside key e (leaving none))
  ]

  abbrev pub give_up : ℕ → LockKey → ℕ → LockRegistry → Moved
  give_up task key e r = (
    set_semaphore e (S.cancel task (r.entries e).semaphore) r,
    inside key e (leaving (some wait_timeout)),
  )

  -- The task is aborted at its wait: the future and the handle are dropped, and no code runs.
  abbrev pub abort_wait : ℕ → LockKey → ℕ → LockRegistry → Moved
  abort_wait task key e r = (set_semaphore e (S.cancel task (r.entries e).semaphore) r, idle)

  -- The two halves of `leave_queue`, and what follows it.
  abbrev pub leave_key : LockKey → ℕ → Option LockOutcome → LockRegistry → Moved
  leave_key key e outcome r =
      (set_queued e (pred_u32 (r.entries e).queued) r, inside key e (left_key outcome))

  abbrev pub leave_total : LockKey → ℕ → Option LockOutcome → LockRegistry → Moved
  leave_total key e outcome r = (
    record r { total_queued = pred_u32 r.total_queued },
    elim outcome [ none ↦ inside key e granted | some o ↦ inside key e (pruning o) ],
  )

  -- A generation; zero is skipped once.
  unfoldable pub stamp_generation : LockKey → ℕ → Bool → LockRegistry → Moved
  stamp_generation key e again r =
      let generation = (r.next_generation + 1) % u16 in
      (
        record r { next_generation = generation },
        if (if again then generation == 0 else false)
            then inside key e regranted
            else inside key e (holding generation),
      )

  abbrev pub drop_permit : LockKey → ℕ → LockRegistry → Moved
  drop_permit key e r =
      (set_semaphore e (S.release (r.entries e).semaphore) r, inside key e released)

  -- `prune`, told the number of handles on the entry.
  unfoldable pub prune : ℕ → LockKey → LockRegistry → LockRegistry
  unfolding key_eq
  prune strong_count key r =
      if strong_count == 2
      then elim (r.map key) [
        | none ↦ r
        | some e ↦ record r {
          map = λ k. if key_eq k key then none else r.map k;
          key_count = r.key_count - 1;
        }
      ]
      else r
