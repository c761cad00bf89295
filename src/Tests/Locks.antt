-- ===== src/Tests/Locks.antt =====
-- src/lock/registry.rs: a semaphore that only counts, and two tasks on one key.
use fareward.Common.{
  ℕ, zero, suc, All, ◌<◌, ◌≡◌, ◌%◌, ◌^◌, ◌+◌, refl, true, false, Option, none, some, List, [], ◌∷◌,
  ◌++◌, arith, Bool, ltb, ◌&&◌, ◌≤◌,
}
use fareward.Common.Int.{pos}
use fareward.Lock.Semaphore.{Semaphore, Conserves}
use fareward.Lock.Tasks.{total}
use fareward.Lock.Registry.{
  LockKey, LockLimits, inside, holding, waiting, busy, answered, idle, enter, try_permit,
  stamp_generation, admit_waiter, prune,
}
use fareward.Lock.System.{
  System, Reached, fresh, moved, Move, request, run, expire, abort, initial, move, lost_by,
  strong_count,
}
use fareward.Lock.Invariant.{has_permit}
use fareward.Lock.Exclusion.{holders-exclusive}
use fareward.Lock.Queue.{joined, total_queued-counts}
use fareward.Lock.Progress.{play, play-free, OnlyTimed, turns}

unfoldable take_one : ℕ → Option ℕ
take_one zero = none
take_one (suc m) = some m

abbrev counting : Semaphore
counting = record {
  Sem = ℕ;
  free = λ s. s;
  new = 1;
  try_acquire = take_one;
  enqueue = λ task s. s;
  poll = λ task s. take_one s;
  cancel = λ task s. s;
  release = λ s. suc s;
}

counting-Conserves : Conserves counting
unfolding take_one
counting-Conserves = record {
  free-new = refl;
  free-try_acquire = λ s s' h. ground arith;
  free-enqueue = λ task s. refl;
  free-poll = λ task s s' h. ground arith;
  free-cancel = λ task s. refl;
  free-release = λ s. refl;
}

abbrev limits : LockLimits
limits = record { max_keys = 8; max_total_waiters = 4; max_lease = 60 }

abbrev key : LockKey
key = (3, pos 41)

-- Task 0 takes the key and task 1 waits for it.
unfoldable losses : List (ℕ × Move) → System counting → ℕ → ℕ
losses [] y lost = lost
losses ((task, m) ∷ ms) y lost =
    losses ms (move counting limits 2 task m y) (lost + lost_by m (y.tasks task))

follow :
    (ms : List (ℕ × Move)) (y : System counting) (lost : ℕ)
    → All (λ turn. turn.0 < 2) ms
    → Reached counting limits 2 lost y
    → Reached counting limits 2 (losses ms y lost) (play counting limits 2 ms y)
unfolding play losses
follow [] y lost h r = r
follow ((task, m) ∷ ms) y lost (h, hs) r =
    follow ms (move counting limits 2 task m y) (lost + lost_by m (y.tasks task)) hs
      (moved task m y lost h r)

-- A task takes the key: a request and two steps.
abbrev takes : ℕ → List (ℕ × Move)
takes task = (task, request key 1) ∷ (task, run) ∷ (task, run) ∷ []

abbrev waits : ℕ → List (ℕ × Move)
waits task = (task, request key 1) ∷ (task, run) ∷ (task, run) ∷ (task, run) ∷ (task, run) ∷ []

abbrev contest : System counting
contest = play counting limits 2 (takes 0 ++ waits 1) (initial counting)

contest_holder : contest.tasks 0 ≡ inside key 0 (holding 1)
unfolding play initial move take_one enter try_permit stamp_generation admit_waiter
contest_holder = refl

contest_waiter : contest.tasks 1 ≡ inside key 0 waiting
unfolding play initial move take_one enter try_permit stamp_generation admit_waiter
contest_waiter = refl

holders-exclusive_example : has_permit waiting ≡ false
unfolding has_permit
holders-exclusive_example =
    holders-exclusive counting counting-Conserves limits 2 contest 0 1 _ key 0 0 (holding 1) waiting
      (follow (takes 0 ++ waits 1) (initial counting) 0
        (
          omega arith,
          (
            omega arith,
            (
              omega arith,
              (omega arith, (omega arith, (omega arith, (omega arith, (omega arith, tt))))),
            ),
          ),
        )
        fresh)
      (omega arith) (omega arith) contest_holder contest_waiter (omega arith) refl

-- The second task is aborted at its wait.
abbrev abandoned : System counting
abandoned = play counting limits 2 (takes 0 ++ waits 1 ++ (1, abort) ∷ []) (initial counting)

total_queued-counts_example :
    abandoned.registry.total_queued
    ≡ (total joined 2 abandoned.tasks
        + losses (takes 0 ++ waits 1 ++ (1, abort) ∷ []) (initial counting) 0)
      % 2 ^ 32
total_queued-counts_example = total_queued-counts counting limits 2 _ abandoned (
    follow (takes 0 ++ waits 1 ++ (1, abort) ∷ []) (initial counting) 0
      (
        omega arith,
        (
          omega arith,
          (
            omega arith,
            (
              omega arith,
              (omega arith, (omega arith, (omega arith, (omega arith, (omega arith, tt))))),
            ),
          ),
        ),
      )
      fresh)

abandoned_counter : (abandoned.registry.total_queued ≡ 1) × (abandoned.tasks 1 ≡ idle)
unfolding play initial move take_one enter try_permit stamp_generation admit_waiter
abandoned_counter = (refl, refl)

-- The holder drops its guard while a refused task still has its handle: nobody takes the entry out
-- of the map.
abbrev left_behind : System counting
left_behind =
    play counting limits 2
      (takes 0
        ++ (1, request key 0)
          ∷ (1, run)
          ∷ (1, run)
          ∷ (1, run)
          ∷ (1, run)
          ∷ (1, run)
          ∷ (1, run)
          ∷ (1, run)
          ∷ (0, run)
          ∷ (0, run)
          ∷ (0, run)
          ∷ (1, run)
          ∷ [])
      (initial counting)

left_behind_entry :
    (left_behind.registry.map key ≡ some 0)
    × (left_behind.registry.key_count ≡ 1)
    × (left_behind.tasks 0 ≡ idle)
    × (left_behind.tasks 1 ≡ answered busy)
unfolding play initial move take_one enter try_permit stamp_generation admit_waiter prune
    strong_count total
left_behind_entry = (refl, refl, refl, refl)

-- Moves by the code of the tasks and by their timers.
unfoldable expires : List ℕ → List (ℕ × Move)
expires [] = []
expires (task ∷ tasks) = (task, expire) ∷ expires tasks

unfoldable all_known : List ℕ → Bool
all_known [] = true
all_known (task ∷ tasks) = ltb task 2 && all_known tasks

expires-OnlyTimed : (i : ℕ) (tasks : List ℕ) → OnlyTimed i (expires tasks)
unfolding expires
expires-OnlyTimed i [] = tt
expires-OnlyTimed i (task ∷ tasks) = (λ e. refl, expires-OnlyTimed i tasks)

expires_known : (tasks : List ℕ) → all_known tasks ≡ true → All (λ turn. turn.0 < 2) (expires tasks)
unfolding expires all_known
expires_known [] h = tt
expires_known (task ∷ tasks) h = (ground (arith, h), expires_known tasks (ground (arith, h)))

-- The first task holds the lock, the second is refused and leaves the entry behind.
abbrev turn_list : List ℕ
turn_list =
    1 ∷ 1 ∷ 1 ∷ 1 ∷ 1 ∷ 1 ∷ 1 ∷ 0 ∷ 0 ∷ 0 ∷ 1 ∷ 0 ∷ 0 ∷ 0 ∷ 0 ∷ 0 ∷ 0 ∷ 0 ∷ 0 ∷ 0 ∷ 1 ∷ 1 ∷ 1 ∷ 1
    ∷ []

abbrev refusal : List (ℕ × Move)
refusal = takes 0 ++ (1, request key 0) ∷ []

abbrev after_all : System counting
after_all =
    play counting limits 2 (expires turn_list) (play counting limits 2 refusal (initial counting))

enough_turns : (i : ℕ) → i < 2 → 12 ≤ turns i (expires turn_list)
unfolding turns expires
enough_turns zero h = omega arith
enough_turns (suc zero) h = omega arith
enough_turns (suc (suc i)) h = absurd (omega (arith, h))

settled_map : after_all.registry.map key ≡ some 0
unfolding play initial move take_one enter try_permit stamp_generation admit_waiter prune
    strong_count total expires
settled_map = refl

play-free_example : (after_all.registry.entries 0).semaphore ≡ 1
play-free_example =
    play-free counting limits counting-Conserves 2 _ 0 (expires turn_list)
      (play counting limits 2 refusal (initial counting)) key
      (follow refusal (initial counting) 0
        (omega arith, (omega arith, (omega arith, (omega arith, tt)))) fresh)
      (expires_known turn_list (unfold all_known in refl)) (λ i l. expires-OnlyTimed i turn_list)
      enough_turns settled_map
