-- ===== src/Lock/Invariant.antt =====
-- src/lock/registry.rs: what holds of the map, the handles and the permits in every state that
-- tasks reach.
pub mod Quiet
pub mod Link
pub mod Prune
use fareward.Common.{
  ℕ, ◌+◌, ◌≤◌, ◌<◌, ◌≡◌, Bool, true, false, Option, none, some, if◌then◌else◌, ◌==◌, List,
}
use fareward.Lock.Semaphore.{Semaphore}
use fareward.Lock.Tasks.{total}
use fareward.Lock.Registry.{
  LockKey, Stage, Phase, LockRegistry, idle, answered, inside, entered, contended, queued_key,
  queued_both, waiting, granted, regranted, released, dropping, leaving, left_key, holding, pruning,
  returning,
}
use fareward.Lock.System.{System, same}

unfoldable pub has_permit : Stage → Bool
has_permit (entered m) = false
has_permit (contended m) = false
has_permit (queued_key m b) = false
has_permit (queued_both m b t) = false
has_permit waiting = false
has_permit (leaving none) = true
has_permit (leaving (some o)) = false
has_permit (left_key none) = true
has_permit (left_key (some o)) = false
has_permit granted = true
has_permit regranted = true
has_permit (holding g) = true
has_permit (pruning o) = false
has_permit (returning o) = false
has_permit released = false
has_permit dropping = false

-- All but the last stage of a task, in which only the drop of its handle is left.
unfoldable pub wants : Stage → Bool
wants (entered m) = true
wants (contended m) = true
wants (queued_key m b) = true
wants (queued_both m b t) = true
wants waiting = true
wants (leaving o) = true
wants (left_key o) = true
wants granted = true
wants regranted = true
wants (holding g) = true
wants (pruning o) = true
wants (returning o) = false
wants released = true
wants dropping = false

unfoldable pub permits : ℕ → Phase → ℕ
permits e idle = 0
permits e (answered o) = 0
permits e (inside k e' s) = if has_permit s then same e e' else 0

module _ (S : Semaphore) where
  -- The handle is on an entry that was made, and on the one that the map has while it is wanted.
  unfoldable pub Placed : LockRegistry S → Phase → Type 0
  Placed r idle = Unit
  Placed r (answered o) = Unit
  Placed r (inside k e s) = (e < r.next_entry) × (wants s ≡ true → r.map k ≡ some e)

  pub record Sound (n : ℕ) (y : System S) : Type 0 where
    pub mapped : (k : LockKey) (e : ℕ) → y.registry.map k ≡ some e → e < y.registry.next_entry
    pub placed : (i : ℕ) → i < n → Placed y.registry (y.tasks i)
    pub one_permit :
        (e : ℕ)
        → e < y.registry.next_entry
        → S.free (y.registry.entries e).semaphore + total (permits e) n y.tasks ≡ 1
