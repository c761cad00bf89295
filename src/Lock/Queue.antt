-- ===== src/Lock/Queue.antt =====
-- src/lock/registry.rs: `total_queued`, against the tasks that wait.
use fareward.Common.{ℕ, ◌+◌, ◌-◌, ◌%◌, ◌^◌, ◌≡◌, refl, arith}
use fareward.Lock.Semaphore.{Semaphore}
use fareward.Lock.Tasks.{total, total-put, total-eq-zero, weight-le-total}
use fareward.Lock.Registry.{
  LockKey, LockLimits, Stage, Phase, LockRegistry, enter, entry_for, try_permit, admit_waiter,
  poll_wait, stamp_generation, prune, idle, answered, inside, entered, contended, queued_key,
  queued_both, waiting, leaving, left_key, granted, regranted, holding, pruning, returning,
  released, dropping,
}
use fareward.Lock.System.{
  System, Reached, fresh, moved, Move, lost_by, move, phase_step, stage_step, wait_step, start,
  initial,
}

-- Whether a task is counted in `total_queued`: from its `fetch_add` to its `fetch_sub`.
unfoldable pub joined : Phase → ℕ
joined idle = 0
joined (answered o) = 0
joined (inside k e (entered m)) = 0
joined (inside k e (contended m)) = 0
joined (inside k e (queued_key m b)) = 0
joined (inside k e (queued_both m b t)) = 1
joined (inside k e waiting) = 1
joined (inside k e (leaving o)) = 1
joined (inside k e (left_key o)) = 1
joined (inside k e granted) = 0
joined (inside k e regranted) = 0
joined (inside k e (holding g)) = 0
joined (inside k e (pruning o)) = 0
joined (inside k e (returning o)) = 0
joined (inside k e released) = 0
joined (inside k e dropping) = 0

module _ (S : Semaphore) (limits : LockLimits) where
  -- With `c` for what others add to the counter.
  stage-counts :
      (m : Move) (strong task c : ℕ) (k : LockKey) (e : ℕ) (s : Stage) (r : LockRegistry S)
      → r.total_queued ≡ (c + joined (inside k e s)) % 2 ^ 32
      → let out = stage_step S limits m strong task k e s r in
        out.0.total_queued ≡ (c + joined out.1 + lost_by m (inside k e s)) % 2 ^ 32
  unfolding joined lost_by stage_step wait_step try_permit admit_waiter poll_wait stamp_generation
      prune
  stage-counts m strong task c k e s r h = ground arith

  start-counts :
      (m : Move) (c : ℕ) (p : Phase) (r : LockRegistry S)
      → joined p ≡ 0
      → r.total_queued ≡ c % 2 ^ 32
      → let out = start S limits m p r in out.0.total_queued ≡ (c + joined out.1) % 2 ^ 32
  unfolding joined start enter entry_for
  start-counts m c p r z h = ground arith

  phase-counts :
      (n : ℕ) (m : Move) (task c : ℕ) (p : Phase) (y : System S)
      → y.registry.total_queued ≡ (c + joined p) % 2 ^ 32
      → let out = phase_step S limits n m task p y in
        out.0.total_queued ≡ (c + joined out.1 + lost_by m p) % 2 ^ 32
  unfolding phase_step joined lost_by
  phase-counts n m task c idle y h = ground (arith, start-counts m c idle y.registry)
  phase-counts n m task c (answered o) y h =
      ground (arith, start-counts m c (answered o) y.registry)
  phase-counts n m task c (inside k e s) y h = stage-counts m _ task c k e s y.registry h

  -- The counter is the number of the tasks that are counted and of the waits aborted so far, up to
  -- its wrap-around: what an aborted wait added to it is never taken back.
  pub total_queued-counts :
      (n lost : ℕ) (y : System S)
      → Reached S limits n lost y
      → y.registry.total_queued ≡ (total joined n y.tasks + lost) % 2 ^ 32
  unfolding move initial joined
  total_queued-counts n _ _ fresh = omega (arith, total-eq-zero joined n (λ i. idle) (λ i l. refl))
  total_queued-counts n _ _ (moved task m y lost l h) = omega (
    arith,
    phase-counts n m task (total joined n y.tasks + lost - joined (y.tasks task)) (y.tasks task) y
        (omega (arith, total_queued-counts n lost y h, weight-le-total joined n task y.tasks l)),
    total-put joined n task (phase_step S limits n m task (y.tasks task) y).1 y.tasks l,
    weight-le-total joined n task y.tasks l,
  )
