-- ===== src/Lock/Invariant/Quiet.antt =====
-- src/lock/registry.rs: the steps that leave the map of a shard as it is.
use fareward.Common.{ℕ, ◌+◌, ◌≡◌, Bool, true, false, none, some, arith}
use fareward.Lock.Semaphore.{Semaphore, Conserves}
use fareward.Lock.Registry.{
  LockKey, LockLimits, Stage, Phase, LockRegistry, Moved, inside, try_permit, admit_waiter,
  poll_wait, stamp_generation, entered, waiting, contended, queued_key, queued_both, granted,
  regranted, released, dropping, leaving, left_key, holding, pruning, returning,
}
use fareward.Lock.System.{stage_step, wait_step, Move, request, run, wake, expire, abort}
use fareward.Lock.Invariant.{Placed, permits, has_permit, wants}

module _ (S : Semaphore) where
  pub record Quiet (r : LockRegistry S) (p : Phase) (out : Moved S) : Type 0 where
    pub same_map : out.0.map ≡ r.map
    pub same_next : out.0.next_entry ≡ r.next_entry
    pub stays_placed : Placed S r p → Placed S out.0 out.1
    pub balance :
        (e : ℕ)
        → S.free (out.0.entries e).semaphore + permits e out.1
          ≡ S.free (r.entries e).semaphore + permits e p

unfoldable pub prunes : Stage → Bool
prunes (entered m) = false
prunes (contended m) = false
prunes (queued_key m b) = false
prunes (queued_both m b t) = false
prunes waiting = false
prunes (leaving o) = false
prunes (left_key o) = false
prunes granted = false
prunes regranted = false
prunes (holding g) = false
prunes (pruning o) = true
prunes (returning o) = false
prunes released = true
prunes dropping = false

module _ (S : Semaphore) (laws : Conserves S) (limits : LockLimits) where
  pub step-map :
      (m : Move) (strong task : ℕ) (k : LockKey) (e : ℕ) (s : Stage) (r : LockRegistry S)
      → prunes s ≡ false
      → (stage_step S limits m strong task k e s r).0.map ≡ r.map
  unfolding try_permit admit_waiter poll_wait stamp_generation stage_step wait_step prunes
  step-map m strong task k e s r h = ground arith

  pub step-next :
      (m : Move) (strong task : ℕ) (k : LockKey) (e : ℕ) (s : Stage) (r : LockRegistry S)
      → prunes s ≡ false
      → (stage_step S limits m strong task k e s r).0.next_entry ≡ r.next_entry
  unfolding try_permit admit_waiter poll_wait stamp_generation stage_step wait_step prunes
  step-next m strong task k e s r h = ground arith

  pub step-Placed :
      (m : Move) (strong task : ℕ) (k : LockKey) (e : ℕ) (s : Stage) (r : LockRegistry S)
      → prunes s ≡ false
      → Placed S r (inside k e s)
      → Placed S r (stage_step S limits m strong task k e s r).1
  unfolding try_permit admit_waiter poll_wait stamp_generation stage_step wait_step prunes Placed
      wants
  step-Placed m strong task k e s r h p = ground arith

  pub step-balance :
      (m : Move) (strong task : ℕ) (k : LockKey) (e e' : ℕ) (s : Stage) (r : LockRegistry S)
      → prunes s ≡ false
      → let out = stage_step S limits m strong task k e s r in
        S.free (out.0.entries e').semaphore + permits e' out.1
        ≡ S.free (r.entries e').semaphore + permits e' (inside k e s)
  unfolding try_permit admit_waiter poll_wait stamp_generation stage_step wait_step prunes permits
      has_permit
  step-balance m strong task k e e' (entered max) r h = grind (arith, laws.free-try_acquire)
  step-balance m strong task k e e' (queued_both max b t) r h = grind (arith, laws.free-enqueue)
  step-balance m strong task k e e' (holding g) r h = grind (arith, laws.free-release)
  step-balance m strong task k e e' (contended max) r h = grind arith
  step-balance m strong task k e e' (queued_key max b) r h = grind arith
  step-balance m strong task k e e' (leaving none) r h = grind arith
  step-balance m strong task k e e' (leaving (some o)) r h = grind arith
  step-balance m strong task k e e' (left_key none) r h = grind arith
  step-balance m strong task k e e' (left_key (some o)) r h = grind arith
  step-balance m strong task k e e' granted r h = grind arith
  step-balance m strong task k e e' regranted r h = grind arith
  step-balance m strong task k e e' (returning o) r h = grind arith
  step-balance m strong task k e e' dropping r h = grind arith
  step-balance m strong task k e e' (pruning o) r h = absurd (ground arith)
  step-balance m strong task k e e' released r h = absurd (ground arith)
  step-balance (request k' m') strong task k e e' waiting r h = grind arith
  step-balance run strong task k e e' waiting r h = grind arith
  step-balance wake strong task k e e' waiting r h = grind (arith, laws.free-poll)
  step-balance expire strong task k e e' waiting r h = grind (arith, laws.free-cancel)
  step-balance abort strong task k e e' waiting r h = grind (arith, laws.free-cancel)
