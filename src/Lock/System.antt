-- ===== src/Lock/System.antt =====
-- src/lock/registry.rs, `acquire` and the drop of a guard as tasks run them: any task may move next,
-- and a move is one step of it. A move that its stage does not know changes nothing.
use fareward.Common.{ℕ, ◌+◌, ◌<◌, true, false, Option, none, some, if◌then◌else◌, ◌==◌}
use fareward.Lock.Semaphore.{Semaphore}
use fareward.Lock.Tasks.{put, total}
use fareward.Lock.Registry.{
  LockKey, LockLimits, Stage, Phase, LockRegistry, Moved, enter, try_permit, join_key, join_total,
  admit_waiter, poll_wait, give_up, abort_wait, leave_key, leave_total, stamp_generation,
  drop_permit, prune, idle, answered, inside, entered, contended, queued_key, queued_both, waiting,
  granted, regranted, released, dropping, leaving, left_key, holding, pruning, returning, new_entry,
}

-- What a task is moved by: a request, its own code, the semaphore or the timer at its wait, or an
-- abort there.
pub data Move : Type 0 where
  request : LockKey → ℕ → Move
  run wake expire abort : Move

abbrev pub same : ℕ → ℕ → ℕ
same e e' = if e' == e then 1 else 0

-- The handles of a task on an entry.
unfoldable pub handles : ℕ → Phase → ℕ
handles e idle = 0
handles e (answered o) = 0
handles e (inside k e' s) = same e e'

-- Whether the map knows the entry under the key.
abbrev pub in_map : Option ℕ → ℕ → ℕ
in_map none e = 0
in_map (some e') e = same e e'

module _ (S : Semaphore) where
  pub record System : Type 0 where
    pub registry : LockRegistry S
    pub tasks : ℕ → Phase

  -- `Arc::strong_count`, with `n` tasks.
  unfoldable pub strong_count : ℕ → LockKey → ℕ → System → ℕ
  unfolding handles
  strong_count n key e y = total (handles e) n y.tasks + in_map (y.registry.map key) e

  -- `new`, before any task starts.
  unfoldable pub initial : System
  initial = record {
    registry = record {
      map = λ k. none;
      entries = λ e. new_entry S;
      next_entry = 0;
      total_queued = 0;
      key_count = 0;
      next_generation = 0;
    };
    tasks = λ i. idle;
  }

module _ (S : Semaphore) (limits : LockLimits) where
  unfoldable pub wait_step : Move → ℕ → LockKey → ℕ → LockRegistry S → Moved S
  wait_step wake task key e r = poll_wait S task key e r
  wait_step expire task key e r = give_up S task key e r
  wait_step abort task key e r = abort_wait S task key e r
  wait_step run task key e r = (r, inside key e waiting)
  wait_step (request k m) task key e r = (r, inside key e waiting)

  unfoldable pub stage_step : Move → ℕ → ℕ → LockKey → ℕ → Stage → LockRegistry S → Moved S
  unfolding wait_step
  stage_step m strong task key e (entered max) r = try_permit S key e max r
  stage_step m strong task key e (contended max) r = join_key S key e max r
  stage_step m strong task key e (queued_key max before) r = join_total S key e max before r
  stage_step m strong task key e (queued_both max before all) r =
      admit_waiter S limits task key e max before all r
  stage_step m strong task key e waiting r = wait_step m task key e r
  stage_step m strong task key e (leaving outcome) r = leave_key S key e outcome r
  stage_step m strong task key e (left_key outcome) r = leave_total S key e outcome r
  stage_step m strong task key e granted r = stamp_generation S key e true r
  stage_step m strong task key e regranted r = stamp_generation S key e false r
  stage_step m strong task key e (holding generation) r = drop_permit S key e r
  stage_step m strong task key e (pruning outcome) r =
      (prune S strong key r, inside key e (returning outcome))
  stage_step m strong task key e (returning outcome) r = (r, answered outcome)
  stage_step m strong task key e released r = (prune S strong key r, inside key e dropping)
  stage_step m strong task key e dropping r = (r, idle)

  unfoldable pub start : Move → Phase → LockRegistry S → Moved S
  start (request key max) p r = enter S limits key max r
  start run p r = (r, p)
  start wake p r = (r, p)
  start expire p r = (r, p)
  start abort p r = (r, p)

  unfoldable pub phase_step : ℕ → Move → ℕ → Phase → System S → Moved S
  unfolding stage_step start
  phase_step n m task idle y = start m idle y.registry
  phase_step n m task (answered o) y = start m (answered o) y.registry
  phase_step n m task (inside key e s) y =
      stage_step m (strong_count S n key e y) task key e s y.registry

  unfoldable pub move : ℕ → ℕ → Move → System S → System S
  unfolding phase_step
  move n task m y =
      let (r, p) = phase_step n m task (y.tasks task) y in
      record { registry = r; tasks = put task p y.tasks }

-- Whether a move aborts a wait.
unfoldable pub lost_by : Move → Phase → ℕ
lost_by abort (inside key e waiting) = 1
lost_by m p = 0

-- The states that `n` tasks reach from `new`, with the number of waits aborted on the way.
pub data Reached (S : Semaphore) (limits : LockLimits) (n : ℕ) : ℕ → System S → Type 0 where
  fresh : Reached S limits n 0 (initial S)
  moved :
      (task : ℕ) (m : Move) (y : System S) (lost : ℕ)
      → task < n
      → Reached S limits n lost y
      → Reached S limits n (lost + lost_by m (y.tasks task)) (move S limits n task m y)
