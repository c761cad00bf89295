-- ===== src/Bridge/Registry/Wakeups.antt =====
-- src/bridge/channel.rs: nobody waits for a tab that is connected.
use fareward.Common.{
  ℕ, ◌+◌, ◌≤◌, ◌≡◌, sym, ap, subst, inl, inr, Bool, none, some, List, [], ◌∷◌, ◌++◌, ◌==◌,
  get_elem?, arith, Bool-cases, Option-cases,
}
use fareward.Common.KeyMap.{get, put, take_out, get-put_self, get-put_ne}
use fareward.Common.KeyMap.Entries.{
  present, entries, get_entries, entries_get, entries-take_out, entries-put, entries-put_ne,
  entries-take_out_le, entries-put_old, entries-take_out_ne, present-take_out,
}
use fareward.Common.StringMap.{same_text, same_text_sound, same_text_self}
use fareward.Bridge.Registry.{
  RegistryState, Step, opens, evicts, wakes, uninstalls, shuts, joins, gives_up, waiters_of,
  new_registry, install, evict, wake, uninstall, shut, find_channel, join, remaining, set_waiters,
  drop_arrival_waiters, step,
}
use fareward.Bridge.Registry.Arrivals.{run}
use Prim.Native.String.{String}

module _ (key : String) where
  -- The key stands once among the channels or among those that are waited for, or nowhere.
  abbrev Apart : RegistryState → Type 0
  Apart r = entries same_text key r.arrival_waiters + present (find_channel key r) ≤ 1

  -- What is taken out of the map of those that wait stands there no more.
  entries-take_out_once :
      (r : RegistryState)
      → Apart r
      → entries same_text key (take_out same_text key r.arrival_waiters) ≡ 0
  entries-take_out_once r h = elim (Option-cases (get same_text key r.arrival_waiters)) [
    | inl missing ↦ omega (
      arith,
      entries_get same_text key r.arrival_waiters missing,
      entries-take_out same_text key r.arrival_waiters,
    )
    | inr (waiters, found) ↦
        omega (arith, h, ap present found, entries-take_out same_text key r.arrival_waiters)
  ]

  Apart-install : (other : String) (r : RegistryState) → Apart r → Apart (install other r)
  unfolding install find_channel
  Apart-install other r h = elim (Bool-cases (same_text other key)) [
    | inl same ↦
        let equal : other ≡ key = same_text_sound other key same in
        subst (λ k. Apart (install k r)) (sym equal)
          (omega (
            arith,
            entries-take_out_once r h,
            ap present
                (get-put_self same_text same_text_sound same_text_self key r.next r.channels),
          ))
    | inr apart ↦ omega (
      arith,
      h,
      entries-take_out_ne same_text same_text_sound same_text_self other key r.arrival_waiters
          apart,
      ap present
          (get-put_ne same_text same_text_sound same_text_self other key r.next r.channels apart),
    )
  ]

  Apart-uninstall : (n : ℕ) (r : RegistryState) → Apart r → Apart (uninstall n r)
  unfolding find_channel uninstall
  Apart-uninstall n r h = elim (Option-cases (get same_text (r.objects n).key r.channels)) [
    | inl missing ↦ rw (uninstall, missing) h
    | inr (installed, found) ↦ elim (Bool-cases (installed == n)) [
      | inl same ↦
          rw (uninstall, found, same)
            (omega (
              arith,
              h,
              present-take_out same_text same_text_sound same_text_self (r.objects n).key key
                  r.channels,
            ))
      | inr other ↦ rw (uninstall, found, other) h
    ]
  ]

  Apart-evict :
      (gone : ℕ → Bool) (message : String → String) (i : ℕ) (r : RegistryState)
      → Apart r
      → Apart (evict gone message i r)
  unfolding find_channel evict
  Apart-evict gone message i r h = elim (Option-cases (get_elem? r.to_evict i)) [
    | inl missing ↦ rw (evict, missing) h
    | inr (m, found) ↦ rw (evict, found) h
  ]

  Apart-wake : (i : ℕ) (r : RegistryState) → Apart r → Apart (wake i r)
  unfolding find_channel wake
  Apart-wake i r h = elim (Option-cases (get_elem? r.to_wake i)) [
    | inl missing ↦ rw (wake, missing) h
    | inr (m, found) ↦ rw (wake, found) h
  ]

  -- A key that has a channel gets no entry, one that has none at most one.
  entries-put_once :
      (other : String) (waiters : List ℕ) (r : RegistryState)
      → (find_channel other r ≡ none)
      → Apart r
      → entries same_text key (put same_text other waiters r.arrival_waiters)
          + present (find_channel key r)
        ≤ 1
  unfolding find_channel
  entries-put_once other waiters r missing h = elim (Bool-cases (same_text other key)) [
    | inl same ↦
        let equal : other ≡ key = same_text_sound other key same in
        let absent : get same_text key r.channels ≡ none =
          subst (λ k. get same_text k r.channels ≡ none) equal missing in
        subst
          (λ k.
            entries same_text key (put same_text k waiters r.arrival_waiters)
              + present (find_channel key r)
            ≤ 1)
          (sym equal)
          (elim (Option-cases (get same_text key r.arrival_waiters)) [
            | inl first ↦ omega (
              arith,
              h,
              entries_get same_text key r.arrival_waiters first,
              entries-put same_text same_text_sound same_text_self key waiters r.arrival_waiters,
              ap present absent,
            )
            | inr (others, found) ↦ omega (
              arith,
              h,
              entries-put same_text same_text_sound same_text_self key waiters r.arrival_waiters,
              ap present found,
            )
          ])
    | inr apart ↦ omega (
      arith,
      h,
      entries-put_ne same_text same_text_sound same_text_self other key waiters r.arrival_waiters
          apart,
    )
  ]

  Apart-join :
      (other : String) (waiter : ℕ) (r : RegistryState) → Apart r → Apart (join other waiter r).0
  unfolding find_channel join
  Apart-join other waiter r h = elim (Option-cases (get same_text other r.channels)) [
    | inl missing ↦
        rw (join, missing)
          (entries-put_once other
            (waiters_of (get same_text other r.arrival_waiters) ++ waiter ∷ []) r missing h)
    | inr (m, found) ↦ rw (join, found) h
  ]

  Apart-set_waiters :
      (other : String) (waiters : List ℕ) (r : RegistryState)
      → present (get same_text other r.arrival_waiters) ≡ 1
      → Apart r
      → Apart (set_waiters other waiters r)
  unfolding find_channel set_waiters
  Apart-set_waiters other [] r found h =
      omega (arith, h, entries-take_out_le same_text other key r.arrival_waiters)
  Apart-set_waiters other (waiter ∷ waiters) r found h = omega (
    arith,
    h,
    entries-put_old same_text same_text_sound same_text_self other key (waiter ∷ waiters)
        r.arrival_waiters found,
  )

  Apart-drop_arrival_waiters :
      (gone : ℕ → Bool) (other : String) (r : RegistryState)
      → Apart r
      → Apart (drop_arrival_waiters gone other r)
  unfolding drop_arrival_waiters
  Apart-drop_arrival_waiters gone other r h =
      elim (Option-cases (get same_text other r.arrival_waiters)) [
        | inl missing ↦ rw (drop_arrival_waiters, missing) h
        | inr (waiters, found) ↦
            rw (drop_arrival_waiters, found)
              (Apart-set_waiters other (remaining gone waiters) r (ap present found) h)
      ]

  Apart-step : (s : Step) (r : RegistryState) → Apart r → Apart (step s r)
  unfolding step shut find_channel
  Apart-step (opens other) r h = Apart-install other r h
  Apart-step (evicts gone message i) r h = Apart-evict gone message i r h
  Apart-step (wakes i) r h = Apart-wake i r h
  Apart-step (uninstalls n) r h = Apart-uninstall n r h
  Apart-step (shuts gone message n) r h = h
  Apart-step (joins other waiter) r h = Apart-join other waiter r h
  Apart-step (gives_up gone other) r h = Apart-drop_arrival_waiters gone other r h

  Apart-run : (ss : List Step) (r : RegistryState) → Apart r → Apart (run ss r)
  unfolding run
  Apart-run [] r h = h
  Apart-run (s ∷ ss) r h = Apart-run ss (step s r) (Apart-step s r h)

-- While a channel is installed for a key, after any steps from the start, nobody waits for that key:
-- no one joins that the opening of the channel has missed.
pub find_channel-arrival_waiters :
    (ss : List Step) (key : String) (n : ℕ)
    → find_channel key (run ss new_registry) ≡ some n
    → get same_text key (run ss new_registry).arrival_waiters ≡ none
unfolding new_registry
find_channel-arrival_waiters ss key n connected =
    let r : RegistryState = run ss new_registry in
    get_entries same_text key r.arrival_waiters (
      omega (
        arith,
        Apart-run key ss new_registry (unfold find_channel entries get in ground arith),
        ap present connected,
      ))
