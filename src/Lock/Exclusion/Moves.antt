-- ===== src/Lock/Exclusion/Moves.antt =====
-- src/lock/registry.rs: every move of a task keeps the invariant.
use fareward.Common.{ℕ, ◌+◌, ◌<◌, ◌≡◌, refl, sym, ap, ◌∙◌, subst, false, arith}
use fareward.Lock.Semaphore.{Semaphore, Conserves}
use fareward.Lock.Registry.{
  LockKey, LockLimits, Stage, Phase, inside, idle, answered, pruning, released, returning, dropping,
  entered, contended, queued_key, queued_both, waiting, leaving, left_key, granted, regranted,
  holding,
}
use fareward.Lock.System.{
  System, stage_step, phase_step, move, start, Move, initial, strong_count, request, run, wake,
  expire, abort,
}
use fareward.Lock.Invariant.{Placed, permits, has_permit, wants, Sound}
use fareward.Lock.Invariant.Quiet.{step-map, step-next, step-Placed, step-balance, prunes}
use fareward.Lock.Invariant.Link.{after, kept-Sound, enter-Sound}
use fareward.Lock.Invariant.Prune.{pruned-Sound}

module _ (S : Semaphore) (laws : Conserves S) (limits : LockLimits) (n i : ℕ) (y : System S)
    (m : Move) (l : i < n) (sound : Sound S n y) where
  still-Sound :
      (p : Phase) → y.tasks i ≡ p → Placed S y.registry p → Sound S n (after S y i (y.registry, p))
  still-Sound p at_i h =
      kept-Sound S n i y (y.registry, p) l sound refl refl h
        (λ e. ap (λ q. S.free (y.registry.entries e).semaphore + permits e q) (sym at_i))

  start-Sound :
      (m : Move) (p : Phase)
      → y.tasks i ≡ p
      → Placed S y.registry p
      → ((e : ℕ) → permits e p ≡ 0)
      → Sound S n (after S y i (start S limits m p y.registry))
  unfolding start
  start-Sound (request k max) p at_i h none_held =
      enter-Sound S laws limits n i y k max l sound (λ e. ap (permits e) at_i ∙ none_held e)
  start-Sound run p at_i h none_held = still-Sound p at_i h
  start-Sound wake p at_i h none_held = still-Sound p at_i h
  start-Sound expire p at_i h none_held = still-Sound p at_i h
  start-Sound abort p at_i h none_held = still-Sound p at_i h

  quiet-Sound :
      (k : LockKey) (e : ℕ) (s : Stage)
      → y.tasks i ≡ inside k e s
      → prunes s ≡ false
      → Sound S n (after S y i (stage_step S limits m (strong_count S n k e y) i k e s y.registry))
  quiet-Sound k e s at_i h =
      kept-Sound S n i y (stage_step S limits m (strong_count S n k e y) i k e s y.registry) l sound
        (step-map S laws limits m _ i k e s y.registry h)
        (step-next S laws limits m _ i k e s y.registry h)
        (step-Placed S laws limits m _ i k e s y.registry h
          (subst (Placed S y.registry) at_i (sound.placed i l)))
        (λ e'.
          step-balance S laws limits m _ i k e e' s y.registry h
          ∙ ap (λ p. S.free (y.registry.entries e').semaphore + permits e' p) (sym at_i))

  stage-Sound :
      (k : LockKey) (e : ℕ) (s : Stage)
      → y.tasks i ≡ inside k e s
      → Placed S y.registry (inside k e s)
      → Sound S n (after S y i (stage_step S limits m (strong_count S n k e y) i k e s y.registry))
  unfolding stage_step prunes Placed has_permit wants
  stage-Sound k e (entered w) at_i h = quiet-Sound k e (entered w) at_i refl
  stage-Sound k e (contended w) at_i h = quiet-Sound k e (contended w) at_i refl
  stage-Sound k e (queued_key w b) at_i h = quiet-Sound k e (queued_key w b) at_i refl
  stage-Sound k e (queued_both w b t) at_i h = quiet-Sound k e (queued_both w b t) at_i refl
  stage-Sound k e waiting at_i h = quiet-Sound k e waiting at_i refl
  stage-Sound k e granted at_i h = quiet-Sound k e granted at_i refl
  stage-Sound k e regranted at_i h = quiet-Sound k e regranted at_i refl
  stage-Sound k e (leaving o) at_i h = quiet-Sound k e (leaving o) at_i refl
  stage-Sound k e (left_key o) at_i h = quiet-Sound k e (left_key o) at_i refl
  stage-Sound k e (holding g) at_i h = quiet-Sound k e (holding g) at_i refl
  stage-Sound k e (returning o) at_i h = quiet-Sound k e (returning o) at_i refl
  stage-Sound k e dropping at_i h = quiet-Sound k e dropping at_i refl
  stage-Sound k e (pruning o) at_i h =
      pruned-Sound S n i y l sound k e (pruning o) at_i (h.1 refl) (returning o) refl refl refl
  stage-Sound k e released at_i h =
      pruned-Sound S n i y l sound k e released at_i (h.1 refl) dropping refl refl refl

  move-by :
      (p : Phase)
      → y.tasks i ≡ p
      → Placed S y.registry p
      → Sound S n (after S y i (phase_step S limits n m i p y))
  unfolding phase_step permits
  move-by idle at_i h = start-Sound m idle at_i h (λ e. refl)
  move-by (answered o) at_i h = start-Sound m (answered o) at_i h (λ e. refl)
  move-by (inside k e s) at_i h = stage-Sound k e s at_i h

  pub move-Sound : Sound S n (move S limits n i m y)
  unfolding move
  move-Sound = move-by (y.tasks i) refl (sound.placed i l)

module _ (S : Semaphore) (n : ℕ) where
  pub initial-Sound : Sound S n (initial S)
  unfolding initial Placed permits
  initial-Sound = record {
    mapped = λ k e h. ground arith;
    placed = λ i l. tt;
    one_permit = λ e l. absurd (ground arith);
  }
