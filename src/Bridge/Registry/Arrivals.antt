-- ===== src/Bridge/Registry/Arrivals.antt =====
-- src/bridge/channel.rs: nobody who waits for a tab is forgotten.
use fareward.Common.{
  ℕ, zero, suc, ◌+◌, ◌≡◌, refl, ap, ◌∙◌, inl, inr, Bool, false, none, some, List, [], ◌∷◌, ◌++◌,
  ◌==◌, get_elem?, splice, times, times-append, arith, Bool-cases, Option-cases, All, ==_iff,
}
use fareward.Common.KeyMap.{get, put, take_out}
use fareward.Common.StringMap.{same_text}
use fareward.Bridge.Registry.{
  RegistryState, Step, opens, evicts, wakes, uninstalls, shuts, joins, gives_up, waiters_of,
  new_registry, install, evict, wake, uninstall, shut, find_channel, join, remaining, set_waiters,
  drop_arrival_waiters, step,
}
use Prim.Native.String.{String}

-- All that wait, over all keys.
unfoldable pub waiting : List (String × List ℕ) → List ℕ
waiting [] = []
waiting ((key, waiters) ∷ m) = waiters ++ waiting m

-- The waiters that join in a step.
unfoldable pub joined : Step → RegistryState → List ℕ
unfolding find_channel
joined (joins key waiter) r = elim (find_channel key r) [ none ↦ waiter ∷ [] | some n ↦ [] ]
joined _ r = []

-- A waiter that is there at every step.
abbrev pub Stays : ℕ → Step → Type 0
Stays w (gives_up gone key) = gone w ≡ false
Stays w _ = Unit {0}

unfoldable pub run : List Step → RegistryState → RegistryState
unfolding step
run [] r = r
run (s ∷ ss) r = run ss (step s r)

unfoldable pub joined_in : List Step → RegistryState → List ℕ
unfolding joined step
joined_in [] r = []
joined_in (s ∷ ss) r = joined s r ++ joined_in ss (step s r)

module _ (w : ℕ) where
  unfoldable known : RegistryState → ℕ
  unfolding waiting times
  known r = times w (waiting r.arrival_waiters) + times w r.to_wake + times w r.woken

  times-put_waiting :
      (k : String) (waiters : List ℕ) (m : List (String × List ℕ))
      → times w (waiting (put same_text k waiters m)) + times w (waiters_of (get same_text k m))
        ≡ times w (waiting m) + times w waiters
  unfolding waiting get put times
  times-put_waiting k waiters [] = omega (arith, times-append w waiters [])
  times-put_waiting k waiters ((j, others) ∷ m) = ground (
    arith,
    times-put_waiting k waiters m,
    times-append w waiters (waiting m),
    times-append w others (waiting m),
    times-append w others (waiting (put same_text k waiters m)),
  )

  times-take_out_waiting :
      (k : String) (m : List (String × List ℕ))
      → times w (waiting (take_out same_text k m)) + times w (waiters_of (get same_text k m))
        ≡ times w (waiting m)
  unfolding waiting get take_out times
  times-take_out_waiting k [] = omega arith
  times-take_out_waiting k ((j, others) ∷ m) = ground (
    arith,
    times-take_out_waiting k m,
    times-append w others (waiting m),
    times-append w others (waiting (take_out same_text k m)),
  )

  times-splice :
      (i : ℕ) (xs : List ℕ) (x : ℕ)
      → get_elem? xs i ≡ some x
      → times w (splice i [] xs) + times w (x ∷ []) ≡ times w xs
  unfolding splice times
  times-splice i [] x e = cc
  times-splice zero (y ∷ ys) x e = let same : y ≡ x = cc in ground (arith, same)
  times-splice (suc i) (y ∷ ys) x e = ground (arith, times-splice i ys x e)

  times-remaining :
      (gone : ℕ → Bool) (xs : List ℕ) → gone w ≡ false → times w (remaining gone xs) ≡ times w xs
  unfolding remaining times
  times-remaining gone [] stays = refl
  times-remaining gone (x ∷ xs) stays = elim (Bool-cases (x == w)) [
    | inl same ↦
        let equal : x ≡ w = (==_iff x w).0 same in
        ground (arith, ap gone equal ∙ stays, same, times-remaining gone xs stays)
    | inr other ↦ ground (arith, other, times-remaining gone xs stays)
  ]

  known-install : (key : String) (r : RegistryState) → known (install key r) ≡ known r
  unfolding known install
  known-install key r = omega (
    arith,
    times-take_out_waiting key r.arrival_waiters,
    times-append w r.to_wake (waiters_of (get same_text key r.arrival_waiters)),
  )

  known-evict :
      (gone : ℕ → Bool) (message : String → String) (i : ℕ) (r : RegistryState)
      → known (evict gone message i r) ≡ known r
  unfolding known evict
  known-evict gone message i r = elim (Option-cases (get_elem? r.to_evict i)) [
    | inl missing ↦ rw (evict, missing) refl
    | inr (m, found) ↦ rw (evict, found) refl
  ]

  known-wake : (i : ℕ) (r : RegistryState) → known (wake i r) ≡ known r
  unfolding known wake
  known-wake i r = elim (Option-cases (get_elem? r.to_wake i)) [
    | inl missing ↦ rw (wake, missing) refl
    | inr (waiter, found) ↦
        rw (wake, found)
          (omega
            (arith, times-splice i r.to_wake waiter found, times-append w r.woken (waiter ∷ [])))
  ]

  known-uninstall : (n : ℕ) (r : RegistryState) → known (uninstall n r) ≡ known r
  unfolding known uninstall
  known-uninstall n r = elim (Option-cases (get same_text (r.objects n).key r.channels)) [
    | inl missing ↦ rw (uninstall, missing) refl
    | inr (installed, found) ↦ elim (Bool-cases (installed == n)) [
      | inl same ↦ rw (uninstall, found, same) refl
      | inr other ↦ rw (uninstall, found, other) refl
    ]
  ]

  known-join :
      (key : String) (waiter : ℕ) (r : RegistryState)
      → known (join key waiter r).0 ≡ known r + times w (joined (joins key waiter) r)
  unfolding known join joined find_channel times
  known-join key waiter r = elim (Option-cases (get same_text key r.channels)) [
    | inl missing ↦
        let old = waiters_of (get same_text key r.arrival_waiters) in
        rw (join, joined, missing)
          (omega (
            arith,
            times-put_waiting key (old ++ waiter ∷ []) r.arrival_waiters,
            times-append w old (waiter ∷ []),
          ))
    | inr (n, found) ↦ rw (join, joined, found) (omega arith)
  ]

  known-set_waiters :
      (key : String) (waiters : List ℕ) (r : RegistryState)
      → known (set_waiters key waiters r)
          + times w (waiters_of (get same_text key r.arrival_waiters))
        ≡ known r + times w waiters
  unfolding known set_waiters times
  known-set_waiters key [] r = omega (arith, times-take_out_waiting key r.arrival_waiters)
  known-set_waiters key (waiter ∷ waiters) r =
      omega (arith, times-put_waiting key (waiter ∷ waiters) r.arrival_waiters)

  known-drop_arrival_waiters :
      (gone : ℕ → Bool) (key : String) (r : RegistryState)
      → gone w ≡ false
      → known (drop_arrival_waiters gone key r) ≡ known r
  unfolding drop_arrival_waiters
  known-drop_arrival_waiters gone key r stays =
      elim (Option-cases (get same_text key r.arrival_waiters)) [
        | inl missing ↦ rw (drop_arrival_waiters, missing) refl
        | inr (waiters, found) ↦
            rw (drop_arrival_waiters, found)
              (omega (
                arith,
                known-set_waiters key (remaining gone waiters) r,
                times-remaining gone waiters stays,
                ap (λ o. times w (waiters_of o)) found,
              ))
      ]

  known-step :
      (s : Step) (r : RegistryState) → Stays w s → known (step s r) ≡ known r + times w (joined s r)
  unfolding step joined times
  known-step (opens key) r stays = omega (arith, known-install key r)
  known-step (evicts gone message i) r stays = omega (arith, known-evict gone message i r)
  known-step (wakes i) r stays = omega (arith, known-wake i r)
  known-step (uninstalls n) r stays = omega (arith, known-uninstall n r)
  known-step (shuts gone message n) r stays = unfold known shut in omega arith
  known-step (joins key waiter) r stays = known-join key waiter r
  known-step (gives_up gone key) r stays =
      omega (arith, known-drop_arrival_waiters gone key r stays)

  known-run :
      (ss : List Step) (r : RegistryState)
      → All (Stays w) ss
      → known (run ss r) ≡ known r + times w (joined_in ss r)
  unfolding run joined_in times
  known-run [] r stays = omega arith
  known-run (s ∷ ss) r (now, later) = omega (
    arith,
    known-step s r now,
    known-run ss (step s r) later,
    times-append w (joined s r) (joined_in ss (step s r)),
  )

-- A waiter that is there at every step waits for an arrival, is about to be woken or was woken as often
-- in all as it joined, after any steps from the start: no step forgets it or wakes it twice.
pub known-joined :
    (ss : List Step) (w : ℕ)
    → All (Stays w) ss
    → let r : RegistryState = run ss new_registry in
      times w (waiting r.arrival_waiters ++ r.to_wake ++ r.woken)
      ≡ times w (joined_in ss new_registry)
unfolding new_registry
known-joined ss w stays =
    let r : RegistryState = run ss new_registry in
    unfold known waiting times in
    omega (
      arith,
      known-run w ss new_registry stays,
      times-append w (waiting r.arrival_waiters ++ r.to_wake) r.woken,
      times-append w (waiting r.arrival_waiters) r.to_wake,
    )
