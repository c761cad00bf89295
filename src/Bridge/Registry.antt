-- ===== src/Bridge/Registry.antt =====
-- src/bridge/channel.rs: `ChannelRegistry`. Each step takes its lock once; what a call does behind it
-- is a step of its own, so that other calls may come between. Channels and waiters are known by
-- numbers.
pub mod Successors
pub mod Arrivals
pub mod Wakeups
use fareward.Common.{
  ℕ, suc, Bool, true, false, Option, none, some, List, [], ◌∷◌, ◌++◌, ◌==◌, if◌then◌else◌,
  get_elem?, length, splice,
}
use fareward.Common.KeyMap.{get, put, take_out}
use fareward.Common.StringMap.{same_text}
use fareward.Bridge.Channel.{
  ClientChannel, new_channel, close, try_send_payload, fail_all_pending_replies,
}
use Prim.Native.String.{String}

-- `to_evict` and `to_wake` are left to the calls of `open_channel` that collected them; `woken` are
-- the waiters that were sent their wake-up.
pub record RegistryState : Type 0 where
  pub channels : List (String × ℕ)
  pub arrival_waiters : List (String × List ℕ)
  pub objects : ℕ → ClientChannel
  pub next : ℕ
  pub to_evict : List ℕ
  pub to_wake : List ℕ
  pub woken : List ℕ

unfoldable pub new_registry : RegistryState
new_registry = record {
  channels = [];
  arrival_waiters = [];
  objects = λ n. new_channel "";
  next = 0;
  to_evict = [];
  to_wake = [];
  woken = [];
}

abbrev pub set_object : ℕ → ClientChannel → RegistryState → RegistryState
set_object n c r = record r { objects = λ i. if i == n then c else r.objects i }

abbrev pub waiters_of : Option (List ℕ) → List ℕ
waiters_of none = []
waiters_of (some waiters) = waiters

abbrev pub numbers_of : Option ℕ → List ℕ
numbers_of none = []
numbers_of (some n) = n ∷ []

-- The part of `open_channel` under the lock.
unfoldable pub install : String → RegistryState → RegistryState
unfolding get put take_out same_text
install key r = record r {
  channels = put same_text key r.next r.channels;
  arrival_waiters = take_out same_text key r.arrival_waiters;
  objects = λ i. if i == r.next then new_channel key else r.objects i;
  next = suc r.next;
  to_evict = r.to_evict ++ numbers_of (get same_text key r.channels);
  to_wake = r.to_wake ++ waiters_of (get same_text key r.arrival_waiters);
}

-- What `open_channel` does to the channel that it replaced.
unfoldable pub evict : (ℕ → Bool) → (String → String) → ℕ → RegistryState → RegistryState
unfolding splice fail_all_pending_replies close try_send_payload
evict gone message i r = elim (get_elem? r.to_evict i) [
  | none ↦ r
  | some n ↦
      let told = close (try_send_payload "{\"Type\":\"replaced\"}" (r.objects n)) in
      let failed = (fail_all_pending_replies gone message "el cliente reconectó" told).0 in
      record (set_object n failed r) { to_evict = splice i [] r.to_evict }
]

unfoldable pub wake : ℕ → RegistryState → RegistryState
unfolding splice
wake i r = elim (get_elem? r.to_wake i) [
  | none ↦ r
  | some waiter ↦ record r { to_wake = splice i [] r.to_wake; woken = r.woken ++ waiter ∷ [] }
]

-- The part of `close_channel` under the lock, and the rest of it.
unfoldable pub uninstall : ℕ → RegistryState → RegistryState
unfolding get take_out same_text
uninstall n r = elim (get same_text (r.objects n).key r.channels) [
  | none ↦ r
  | some installed ↦
      if installed == n
      then record r { channels = take_out same_text (r.objects n).key r.channels }
      else r
]

unfoldable pub shut : (ℕ → Bool) → (String → String) → ℕ → RegistryState → RegistryState
unfolding close fail_all_pending_replies
shut gone message n r =
    set_object n
      (fail_all_pending_replies gone message "el cliente se desconectó" (close (r.objects n))).0 r

unfoldable pub find_channel : String → RegistryState → Option ℕ
unfolding get same_text
find_channel key r = get same_text key r.channels

abbrev pub connected_channel_count : RegistryState → ℕ
connected_channel_count r = length r.channels

-- The part of `await_channel` under the lock, with the channel where it is there by then.
unfoldable pub join : String → ℕ → RegistryState → RegistryState × Option ℕ
unfolding get put same_text
join key waiter r = elim (get same_text key r.channels) [
  | some n ↦ (r, some n)
  | none ↦ (
    record r {
      arrival_waiters =
          put same_text key (waiters_of (get same_text key r.arrival_waiters) ++ waiter ∷ [])
            r.arrival_waiters;
    },
    none,
  )
]

-- `Vec::retain` of the waiters that are not gone.
unfoldable pub remaining : (ℕ → Bool) → List ℕ → List ℕ
remaining gone [] = []
remaining gone (waiter ∷ waiters) =
    let rest = remaining gone waiters in if gone waiter then rest else waiter ∷ rest

unfoldable pub set_waiters : String → List ℕ → RegistryState → RegistryState
unfolding put take_out same_text
set_waiters key [] r = record r { arrival_waiters = take_out same_text key r.arrival_waiters }
set_waiters key (waiter ∷ waiters) r = record r {
  arrival_waiters = put same_text key (waiter ∷ waiters) r.arrival_waiters;
}

unfoldable pub drop_arrival_waiters : (ℕ → Bool) → String → RegistryState → RegistryState
unfolding get same_text remaining set_waiters
drop_arrival_waiters gone key r = elim (get same_text key r.arrival_waiters) [
  | none ↦ r
  | some waiters ↦ set_waiters key (remaining gone waiters) r
]

-- The steps, in any order.
pub data Step : Type 0 where
  opens : String → Step
  evicts : (ℕ → Bool) → (String → String) → ℕ → Step
  wakes : ℕ → Step
  uninstalls : ℕ → Step
  shuts : (ℕ → Bool) → (String → String) → ℕ → Step
  joins : String → ℕ → Step
  gives_up : (ℕ → Bool) → String → Step

unfoldable pub step : Step → RegistryState → RegistryState
unfolding install evict wake uninstall shut join drop_arrival_waiters
step (opens key) r = install key r
step (evicts gone message i) r = evict gone message i r
step (wakes i) r = wake i r
step (uninstalls n) r = uninstall n r
step (shuts gone message n) r = shut gone message n r
step (joins key waiter) r = (join key waiter r).0
step (gives_up gone key) r = drop_arrival_waiters gone key r
