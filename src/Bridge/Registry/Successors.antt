-- ===== src/Bridge/Registry/Successors.antt =====
-- src/bridge/channel.rs: a stream that unwinds late does not evict its successor.
use fareward.Common.{
  ℕ, List, [], ◌∷◌, ◌≡◌, sym, ap, ◌∙◌, ◌⊎◌, inl, inr, Bool, some, ◌==◌, get_elem?, some-injective,
  Bool-cases, Option-cases, ==_iff,
}
use fareward.Common.KeyMap.{get, get-put_ne, get-take_out_ne}
use fareward.Common.StringMap.{same_text, same_text_sound, same_text_self}
use fareward.Bridge.Registry.{
  RegistryState, Step, opens, evicts, wakes, uninstalls, shuts, joins, gives_up, install, evict,
  wake, uninstall, shut, find_channel, join, remaining, set_waiters, drop_arrival_waiters, step,
}
use Prim.Native.String.{String}

module _ (key : String) (n : ℕ) where
  abbrev pub Installed : RegistryState → Type 0
  Installed r = find_channel key r ≡ some n

  Installed-install :
      (other : String) (r : RegistryState)
      → Installed r
      → (Installed (install other r)) ⊎ (other ≡ key)
  unfolding find_channel install
  Installed-install other r h = elim (Bool-cases (same_text other key)) [
    | inl same ↦ inr (same_text_sound other key same)
    | inr ne ↦
        inl (get-put_ne same_text same_text_sound same_text_self other key r.next r.channels ne ∙ h)
  ]

  Installed-uninstall :
      (m : ℕ) (r : RegistryState) → Installed r → (Installed (uninstall m r)) ⊎ (m ≡ n)
  unfolding find_channel uninstall
  Installed-uninstall m r h = elim (Option-cases (get same_text (r.objects m).key r.channels)) [
    | inl missing ↦ rw (uninstall, missing) (inl h)
    | inr (installed, found) ↦ elim (Bool-cases (installed == m)) [
      | inr other ↦ rw (uninstall, found, other) (inl h)
      | inl same ↦ elim (Bool-cases (same_text (r.objects m).key key)) [
        | inl its ↦
            let e : some installed ≡ some n =
              sym found
              ∙ ap (λ k. get same_text k r.channels) (same_text_sound (r.objects m).key key its)
              ∙ h in
            inr (sym ((==_iff installed m).0 same) ∙ some-injective e)
        | inr ne ↦
            rw (uninstall, found, same)
              (inl (
                get-take_out_ne same_text same_text_sound same_text_self (r.objects m).key key
                  r.channels ne
                ∙ h))
      ]
    ]
  ]

  Installed-evict :
      (gone : ℕ → Bool) (message : String → String) (i : ℕ) (r : RegistryState)
      → Installed r
      → Installed (evict gone message i r)
  unfolding find_channel evict
  Installed-evict gone message i r h = elim (Option-cases (get_elem? r.to_evict i)) [
    | inl missing ↦ rw (evict, missing) h
    | inr (m, found) ↦ rw (evict, found) h
  ]

  Installed-wake : (i : ℕ) (r : RegistryState) → Installed r → Installed (wake i r)
  unfolding find_channel wake
  Installed-wake i r h = elim (Option-cases (get_elem? r.to_wake i)) [
    | inl missing ↦ rw (wake, missing) h
    | inr (m, found) ↦ rw (wake, found) h
  ]

  Installed-join :
      (other : String) (waiter : ℕ) (r : RegistryState)
      → Installed r
      → Installed (join other waiter r).0
  unfolding find_channel join
  Installed-join other waiter r h = elim (Option-cases (get same_text other r.channels)) [
    | inl missing ↦ rw (join, missing) h
    | inr (m, found) ↦ rw (join, found) h
  ]

  Installed-set_waiters :
      (other : String) (waiters : List ℕ) (r : RegistryState)
      → Installed r
      → Installed (set_waiters other waiters r)
  unfolding find_channel set_waiters
  Installed-set_waiters other [] r h = h
  Installed-set_waiters other (waiter ∷ waiters) r h = h

  Installed-drop_arrival_waiters :
      (gone : ℕ → Bool) (other : String) (r : RegistryState)
      → Installed r
      → Installed (drop_arrival_waiters gone other r)
  unfolding drop_arrival_waiters
  Installed-drop_arrival_waiters gone other r h =
      elim (Option-cases (get same_text other r.arrival_waiters)) [
        | inl missing ↦ rw (drop_arrival_waiters, missing) h
        | inr (waiters, found) ↦
            rw (drop_arrival_waiters, found)
              (Installed-set_waiters other (remaining gone waiters) r h)
      ]

  -- The channel that is installed for a key stays so in every step but a new opening of its key and
  -- the close of that very channel: the close of one that it replaced leaves it.
  pub step-Installed :
      (s : Step) (r : RegistryState)
      → Installed r
      → (Installed (step s r)) ⊎ (s ≡ opens key) ⊎ (s ≡ uninstalls n)
  unfolding step shut find_channel
  step-Installed (opens other) r h = elim (Installed-install other r h) [
    | inl kept ↦ inl kept
    | inr same ↦ inr (inl (ap opens same))
  ]
  step-Installed (evicts gone message i) r h = inl (Installed-evict gone message i r h)
  step-Installed (wakes i) r h = inl (Installed-wake i r h)
  step-Installed (uninstalls m) r h = elim (Installed-uninstall m r h) [
    | inl kept ↦ inl kept
    | inr same ↦ inr (inr (ap uninstalls same))
  ]
  step-Installed (shuts gone message m) r h = inl h
  step-Installed (joins other waiter) r h = inl (Installed-join other waiter r h)
  step-Installed (gives_up gone other) r h = inl (Installed-drop_arrival_waiters gone other r h)
