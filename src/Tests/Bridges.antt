-- ===== src/Tests/Bridges.antt =====
-- src/bridge/channel.rs: a tab that reconnects while others wait for it.
use fareward.Common.{ℕ, ◌≡◌, refl, ◌⊎◌, Bool, false, none, some, List, [], ◌∷◌, ◌++◌, ◌==◌, times}
use fareward.Bridge.Channel.{ClientChannel, new_channel, fail_all_pending_replies}
use fareward.Bridge.Channel.Replies.{
  Call, awaited, released, delivered, calls, registered, answered_waiters, calls-settled,
}
use fareward.Bridge.Registry.{
  RegistryState, Step, opens, evicts, wakes, uninstalls, shuts, joins, gives_up, new_registry,
  find_channel, step,
}
use fareward.Bridge.Registry.Successors.{Installed, step-Installed}
use fareward.Bridge.Registry.Arrivals.{waiting, run, joined_in, known-joined}
use fareward.Bridge.Registry.Wakeups.{find_channel-arrival_waiters}
use fareward.Common.KeyMap.{get}
use fareward.Common.StringMap.{same_text}
use Prim.Native.String.{String}

abbrev nobody : ℕ → Bool
nobody waiter = false

abbrev only_seven : ℕ → Bool
only_seven waiter = waiter == 7

abbrev same_reason : String → String
same_reason reason = reason

-- The second command replaces the first of its number, and is answered; the third stays.
abbrev three_commands : List Call
three_commands =
    awaited 1 7
    ∷ awaited 1 8
    ∷ delivered nobody 1 (record { kind = "ok"; payload = "{}" })
    ∷ awaited 2 9
    ∷ released 3
    ∷ []

calls-settled_example :
    let c : ClientChannel =
      (fail_all_pending_replies nobody same_reason "gone"
        (calls three_commands (new_channel "tab"))).0 in
    (c.pending_replies ≡ [])
    × (times 9 (answered_waiters c ++ c.dropped) ≡ times 9 (registered three_commands))
calls-settled_example = calls-settled "tab" three_commands nobody same_reason "gone" 9

-- The tab opens twice; its first stream unwinds late.
abbrev twice : RegistryState
twice = run (opens "tab" ∷ opens "tab" ∷ []) new_registry

twice-find_channel : find_channel "tab" twice ≡ some 1
unfolding run step find_channel new_registry
twice-find_channel = refl

step-Installed_example :
    (Installed "tab" 1 (step (uninstalls 0) twice))
    ⊎ (uninstalls 0 ≡ opens "tab")
    ⊎ (uninstalls 0 ≡ uninstalls 1)
step-Installed_example = step-Installed "tab" 1 (uninstalls 0) twice twice-find_channel

abbrev arrivals : List Step
arrivals =
    joins "tab" 8
    ∷ joins "tab" 7
    ∷ gives_up only_seven "tab"
    ∷ opens "tab"
    ∷ wakes 0
    ∷ opens "tab"
    ∷ evicts nobody same_reason 0
    ∷ uninstalls 0
    ∷ shuts nobody same_reason 0
    ∷ []

known-joined_example :
    let r : RegistryState = run arrivals new_registry in
    times 8 (waiting r.arrival_waiters ++ r.to_wake ++ r.woken)
    ≡ times 8 (joined_in arrivals new_registry)
known-joined_example =
    known-joined arrivals 8 (tt, (tt, (refl, (tt, (tt, (tt, (tt, (tt, (tt, tt)))))))))

arrivals_woken : (run arrivals new_registry).woken ≡ 8 ∷ []
unfolding run step new_registry new_channel
arrivals_woken = refl

arrivals-find_channel : find_channel "tab" (run arrivals new_registry) ≡ some 1
unfolding run step find_channel new_registry new_channel
arrivals-find_channel = refl

find_channel-arrival_waiters_example :
    get same_text "tab" (run arrivals new_registry).arrival_waiters ≡ none
find_channel-arrival_waiters_example =
    find_channel-arrival_waiters arrivals "tab" 1 arrivals-find_channel
