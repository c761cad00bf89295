-- ===== src/Lock/Semaphore.antt =====
-- The semaphore of the runtime, as far as src/lock/registry.rs relies on it: permits are neither
-- made nor lost. `free` counts the permits that no guard has, those on their way to a waiter too.
use fareward.Common.{ℕ, suc, ◌≡◌, Option, some}

pub record Semaphore : Type 1 where
  pub Sem : Type 0
  pub free : Sem → ℕ
  -- `Semaphore::new(1)`
  pub new : Sem
  pub try_acquire : Sem → Option Sem
  -- The future of `acquire` of a task: its first poll, a later one, and its drop.
  pub enqueue : ℕ → Sem → Sem
  pub poll : ℕ → Sem → Option Sem
  pub cancel : ℕ → Sem → Sem
  -- The drop of a permit.
  pub release : Sem → Sem

pub record Conserves (S : Semaphore) : Type 0 where
  pub free-new : S.free S.new ≡ 1
  pub free-try_acquire : (s s' : S.Sem) → S.try_acquire s ≡ some s' → S.free s ≡ suc (S.free s')
  pub free-enqueue : (task : ℕ) (s : S.Sem) → S.free (S.enqueue task s) ≡ S.free s
  pub free-poll : (task : ℕ) (s s' : S.Sem) → S.poll task s ≡ some s' → S.free s ≡ suc (S.free s')
  pub free-cancel : (task : ℕ) (s : S.Sem) → S.free (S.cancel task s) ≡ S.free s
  pub free-release : (s : S.Sem) → S.free (S.release s) ≡ suc (S.free s)
