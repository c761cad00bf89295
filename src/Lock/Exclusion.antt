-- ===== src/Lock/Exclusion.antt =====
-- src/lock/registry.rs: what callers rely on, in every state that tasks reach from `new`.
pub mod Moves
use fareward.Common.{
  ℕ, ◌+◌, ◌≤◌, ◌<◌, ◌≡◌, ◌≢◌, refl, subst, Bool, true, false, Option, none, some, arith,
}
use fareward.Lock.Semaphore.{Semaphore, Conserves}
use fareward.Lock.Tasks.{total, two-le-total}
use fareward.Lock.Registry.{LockKey, LockLimits, Stage, Phase, inside}
use fareward.Lock.System.{System, Reached, fresh, moved, same}
use fareward.Lock.Invariant.{Placed, permits, has_permit, wants, Sound}
use fareward.Lock.Exclusion.Moves.{move-Sound, initial-Sound}

module _ (S : Semaphore) (laws : Conserves S) (limits : LockLimits) (n : ℕ) where
  pub Reached-Sound : (y : System S) (lost : ℕ) → Reached S limits n lost y → Sound S n y
  Reached-Sound _ _ fresh = initial-Sound S n
  Reached-Sound _ _ (moved task m y lost l h) =
      move-Sound S laws limits n task y m l (Reached-Sound y lost h)

  wanted : (s : Stage) → has_permit s ≡ true → wants s ≡ true
  unfolding has_permit wants
  wanted s h = ground arith

  wanted_placed :
      (y : System S) (i e : ℕ) (k : LockKey) (s : Stage)
      → Sound S n y
      → i < n
      → y.tasks i ≡ inside k e s
      → wants s ≡ true
      → y.registry.map k ≡ some e
  unfolding Placed
  wanted_placed y i e k s sound l at_i w = (subst (Placed S y.registry) at_i (sound.placed i l)).1 w

  shared :
      (y : System S) (i j : ℕ) (k : LockKey) (e e' : ℕ) (s s' : Stage)
      → Sound S n y
      → i < n
      → j < n
      → y.tasks i ≡ inside k e s
      → y.tasks j ≡ inside k e' s'
      → i ≢ j
      → has_permit s ≡ true
      → has_permit s' ≡ false
  unfolding permits
  shared y i j k e e' s s' sound a b at_i at_j other h = ground (
    arith,
    wanted_placed y i e k s sound a at_i (wanted s h),
    wanted_placed y j e' k s' sound b at_j,
    wanted s',
    two-le-total (permits e) n i j y.tasks a b,
    sound.mapped k e,
    sound.one_permit e,
  )

  -- In every state that tasks reach from a new registry, while one task has the permit of a key no other
  -- task in a stage for that key has one, also when the key left the map in between and came back as a new entry.
  pub holders-exclusive :
      (y : System S) (i j lost : ℕ) (k : LockKey) (e e' : ℕ) (s s' : Stage)
      → Reached S limits n lost y
      → i < n
      → j < n
      → y.tasks i ≡ inside k e s
      → y.tasks j ≡ inside k e' s'
      → i ≢ j
      → has_permit s ≡ true
      → has_permit s' ≡ false
  holders-exclusive y i j lost k e e' s s' reached a b at_i at_j other h =
      shared y i j k e e' s s' (Reached-Sound y lost reached) a b at_i at_j other h
