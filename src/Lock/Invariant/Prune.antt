-- ===== src/Lock/Invariant/Prune.antt =====
-- src/lock/registry.rs, `prune`: only an entry that no other task wants leaves the map. With it,
-- every move keeps the invariant.
use fareward.Common.{ℕ, ◌<◌, ◌≡◌, ◌≢◌, refl, true, false, some, arith}
use fareward.Lock.Semaphore.{Semaphore}
use fareward.Lock.Tasks.{two-le-total}
use fareward.Lock.Registry.{
  LockKey, Stage, Phase, inside, idle, answered, prune, key_eq, key_eq_sound,
}
use fareward.Lock.System.{System, strong_count, handles}
use fareward.Lock.Invariant.{Placed, permits, has_permit, wants, Sound}
use fareward.Lock.Invariant.Link.{after, moved-Sound}

module _ (S : Semaphore) (n i : ℕ) (y : System S) (l : i < n) (sound : Sound S n y) where
  module _ (k : LockKey) (e : ℕ) (s : Stage) (at_i : y.tasks i ≡ inside k e s)
      (here : y.registry.map k ≡ some e) where
    -- Two handles are the map's and the task's own.
    alone : (j : ℕ) → j < n → j ≢ i → strong_count S n k e y ≡ 2 → handles e (y.tasks j) ≡ 0
    unfolding strong_count handles
    alone j b other two =
        ground (arith, two-le-total (handles e) n i j y.tasks l b other, at_i, here, two)

    same_entry : (k' : LockKey) (e' : ℕ) → y.registry.map k' ≡ some e' → key_eq k' k ≡ true → e' ≡ e
    same_entry k' e' h eq = ground (arith, key_eq_sound k' k eq)

    -- The map keeps an entry that another task has a handle on.
    prune-kept :
        (k' : LockKey) (e' : ℕ)
        → y.registry.map k' ≡ some e'
        → (strong_count S n k e y ≡ 2 → e' ≢ e)
        → (prune S (strong_count S n k e y) k y.registry).map k' ≡ some e'
    unfolding prune
    prune-kept k' e' h apart = ground (arith, same_entry k' e' h)

    prune-mapped :
        (k' : LockKey) (e' : ℕ)
        → (prune S (strong_count S n k e y) k y.registry).map k' ≡ some e'
        → y.registry.map k' ≡ some e'
    unfolding prune
    prune-mapped k' e' h = ground arith

    prune-next : (prune S (strong_count S n k e y) k y.registry).next_entry ≡ y.registry.next_entry
    unfolding prune
    prune-next = ground arith

    prune-free :
        (e' : ℕ)
        → S.free ((prune S (strong_count S n k e y) k y.registry).entries e').semaphore
          ≡ S.free (y.registry.entries e').semaphore
    unfolding prune
    prune-free e' = ground arith

    others-Placed :
        (j : ℕ)
        → j < n
        → j ≢ i
        → (p : Phase) → y.tasks j ≡ p
        → Placed S y.registry p
        → Placed S (prune S (strong_count S n k e y) k y.registry) p
    unfolding Placed handles
    others-Placed j b other idle h q = q
    others-Placed j b other (answered o) h q = q
    others-Placed j b other (inside k' e' s') h q = (
      omega (arith, q.0, prune-next),
      λ w. prune-kept k' e' (q.1 w) (λ two. ground (arith, alone j b other two, h)),
    )

    pub pruned-Sound :
        (s' : Stage)
        → has_permit s ≡ false
        → has_permit s' ≡ false
        → wants s' ≡ false
        → Sound S n (after S y i (prune S (strong_count S n k e y) k y.registry, inside k e s'))
    unfolding Placed permits
    pruned-Sound s' a b c =
        moved-Sound S n i y (prune S (strong_count S n k e y) k y.registry) (inside k e s') l
          (λ k' e' h. omega (arith, prune-next, sound.mapped k' e' (prune-mapped k' e' h)))
          (omega (arith, prune-next, sound.mapped k e here), λ w. ground arith)
          (λ j u other. others-Placed j u other (y.tasks j) refl (sound.placed j u))
          (λ e' u. ground (arith, prune-free e', prune-next, at_i, sound.one_permit e'))
