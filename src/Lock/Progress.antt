-- ===== src/Lock/Progress.antt =====
-- src/lock/registry.rs: how far a task is from its end, and what it leaves behind.
use fareward.Common.{
  ℕ, suc, All, ◌-◌, ◌≤◌, ◌<◌, ◌≡◌, some, sym, subst, Bool, true, false, if◌then◌else◌, List, [],
  ◌∷◌, ◌==◌, arith,
}
use fareward.Lock.Semaphore.{Semaphore, Conserves}
use fareward.Lock.Tasks.{total, total-eq-zero}
use fareward.Lock.Invariant.{permits, Sound}
use fareward.Lock.Exclusion.{Reached-Sound}
use fareward.Lock.Exclusion.Moves.{move-Sound}
use fareward.Lock.Registry.{
  LockKey, LockLimits, Stage, Phase, LockRegistry, try_permit, admit_waiter, poll_wait,
  stamp_generation, prune, idle, answered, inside, entered, contended, queued_key, queued_both,
  waiting, leaving, left_key, granted, regranted, holding, pruning, returning, released, dropping,
}
use fareward.Lock.System.{
  System, Move, Reached, expire, move, phase_step, stage_step, wait_step, start, strong_count,
}

-- The number of steps a task has at most before it.
unfoldable pub distance : Phase → ℕ
distance idle = 0
distance (answered o) = 0
distance (inside k e (entered m)) = 12
distance (inside k e (contended m)) = 11
distance (inside k e (queued_key m b)) = 10
distance (inside k e (queued_both m b t)) = 9
distance (inside k e waiting) = 8
distance (inside k e (leaving o)) = 7
distance (inside k e (left_key o)) = 6
distance (inside k e granted) = 5
distance (inside k e regranted) = 4
distance (inside k e (holding g)) = 3
distance (inside k e (pruning o)) = 2
distance (inside k e (returning o)) = 1
distance (inside k e released) = 2
distance (inside k e dropping) = 1

module _ (S : Semaphore) (limits : LockLimits) where
  stage-descends :
      (strong task : ℕ) (k : LockKey) (e : ℕ) (s : Stage) (r : LockRegistry S)
      → suc (distance (stage_step S limits expire strong task k e s r).1) ≤ distance (inside k e s)
  unfolding distance stage_step wait_step try_permit admit_waiter poll_wait stamp_generation prune
  stage-descends strong task k e s r = ground arith

  start-descends :
      (p : Phase) (r : LockRegistry S) → distance (start S limits expire p r).1 ≤ distance p
  unfolding start
  start-descends p r = omega arith

  pub phase-descends :
      (n task : ℕ) (p : Phase) (y : System S)
      → distance (phase_step S limits n expire task p y).1 ≤ distance p - 1
  unfolding phase_step distance
  phase-descends n task idle y = start-descends idle y.registry
  phase-descends n task (answered o) y = start-descends (answered o) y.registry
  phase-descends n task (inside k e s) y =
      omega (arith, stage-descends (strong_count S n k e y) task k e s y.registry)

  -- Moves of tasks one after another, in any order.
  unfoldable pub play : ℕ → List (ℕ × Move) → System S → System S
  play n [] y = y
  play n ((task, m) ∷ ms) y = play n ms (move S limits n task m y)

-- Every move of the task is one of its own code, at its wait one of its timer.
abbrev pub OnlyTimed : ℕ → List (ℕ × Move) → Type 0
OnlyTimed i ms = All (λ turn. turn.0 ≡ i → turn.1 ≡ expire) ms

unfoldable pub turns : ℕ → List (ℕ × Move) → ℕ
turns i [] = 0
turns i ((task, m) ∷ ms) = if task == i then suc (turns i ms) else turns i ms

unfoldable pub has_ended : Phase → Bool
has_ended idle = true
has_ended (answered o) = true
has_ended (inside k e s) = false

ended_at_zero : (p : Phase) → distance p ≡ 0 → has_ended p ≡ true
unfolding distance has_ended
ended_at_zero p h = ground arith

distance-le : (p : Phase) → distance p ≤ 12
unfolding distance
distance-le p = ground arith

ended_permits : (p : Phase) (e : ℕ) → has_ended p ≡ true → permits e p ≡ 0
unfolding has_ended permits
ended_permits p e h = ground (arith, h)

module _ (S : Semaphore) (limits : LockLimits) where
  own_move :
      (n i task : ℕ) (m : Move) (y : System S)
      → (task ≡ i → m ≡ expire)
      → task ≡ i
      → distance (phase_step S limits n m task (y.tasks task) y).1 ≤ distance (y.tasks task) - 1
  own_move n i task m y h e =
      subst
        (λ m'.
          distance (phase_step S limits n m' task (y.tasks task) y).1 ≤ distance (y.tasks task) - 1)
        (sym (h e)) (phase-descends S limits n task (y.tasks task) y)

  play-descends :
      (n i : ℕ) (ms : List (ℕ × Move)) (y : System S)
      → OnlyTimed i ms
      → distance ((play S limits n ms y).tasks i) ≤ distance (y.tasks i) - turns i ms
  unfolding play turns move
  play-descends n i [] y h = omega arith
  play-descends n i ((task, m) ∷ ms) y (h, hs) =
      ground (arith, own_move n i task m y h, play-descends n i ms (move S limits n task m y) hs)

  -- A task whose wait is bounded by its timer ends within twelve of its own moves.
  play-ends :
      (n i : ℕ) (ms : List (ℕ × Move)) (y : System S)
      → OnlyTimed i ms
      → 12 ≤ turns i ms
      → has_ended ((play S limits n ms y).tasks i) ≡ true
  play-ends n i ms y h enough =
      ended_at_zero _ (omega (arith, play-descends n i ms y h, distance-le (y.tasks i), enough))

  play-Sound :
      Conserves S
      → (n : ℕ) (ms : List (ℕ × Move)) (y : System S) → All (λ turn. turn.0 < n) ms
      → Sound S n y
      → Sound S n (play S limits n ms y)
  unfolding play
  play-Sound laws n [] y h sound = sound
  play-Sound laws n ((task, m) ∷ ms) y (h, hs) sound =
      play-Sound laws n ms (move S limits n task m y) hs
        (move-Sound S laws limits n task y m h sound)

  -- With a semaphore that neither makes nor loses permits, from every state that tasks reach from a new
  -- registry, once each of them has had at least twelve moves and only such of its own code, at its
  -- wait those of its timer, in any order, the permit of every key in the map is free.
  pub play-free :
      Conserves S
      → (n lost e : ℕ) (ms : List (ℕ × Move)) (y : System S) (key : LockKey)
      → Reached S limits n lost y
      → All (λ turn. turn.0 < n) ms
      → ((i : ℕ) → i < n → OnlyTimed i ms)
      → ((i : ℕ) → i < n → 12 ≤ turns i ms)
      → (play S limits n ms y).registry.map key ≡ some e
      → S.free ((play S limits n ms y).registry.entries e).semaphore ≡ 1
  play-free laws n lost e ms y key reached within timed enough there =
      let z = play S limits n ms y in
      let sound = play-Sound laws n ms y within (Reached-Sound S laws limits n y lost reached) in
      let none_held : total (permits e) n z.tasks ≡ 0 =
        total-eq-zero (permits e) n z.tasks
          (λ i l. ended_permits (z.tasks i) e (play-ends n i ms y (timed i l) (enough i l))) in
      omega (arith, sound.one_permit e (sound.mapped key e there), none_held)
