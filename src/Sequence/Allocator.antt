-- ===== src/Sequence/Allocator.antt =====
-- src/sequence/allocator.rs: the allocator. One call of `reserve` or `set` holds the lock of its
-- counter from end to end, so calls on one counter follow one another, and calls on two counters
-- share only the map of names; a call is one step here.
--
-- `hash_name` stands for the standard library's hasher. `in_use` says of which names another task
-- holds a handle (`Arc::strong_count(entry) > 1`) while the call runs.
use fareward.Common.{
  ℕ, ◌+◌, ◌-◌, ◌/◌, ◌%◌, ◌^◌, Bool, not, ◌||◌, none, some, List, [], leb, ◌==◌, if◌then◌else◌,
  length, max,
}
use fareward.Common.Int.{ℤ}
use fareward.Common.Result.{Result, ok, err}
use fareward.Common.StringMap.{lookup, insert, retain}
use fareward.Sequence.Store.{SequenceStore, SequenceError, ceiling}
use fareward.Sequence.Block.{SequenceState, empty, is_spent}
use fareward.Sequence.Critical.{SequenceLimits, Outcome, reserve_locked, set_locked}
use Prim.Native.String.{String}

abbrev pub Entries : Type 0
Entries = List (String × SequenceState)

pub record SequenceAllocator : Type 0 where
  pub entries : Entries
  pub tracked_names : ℕ
  pub limits : SequenceLimits

unfoldable pub new : SequenceLimits → SequenceAllocator
new limits = record { entries = []; tracked_names = 0; limits = limits }

-- What the process around one call is like.
pub record Surroundings : Type 0 where
  pub hash_name : String → ℕ
  pub shard_count : ℕ
  pub in_use : String → Bool

unfoldable pub shard_index : Surroundings → String → ℕ
shard_index around name = around.hash_name name / 2 ^ 32 % max 1 around.shard_count

-- Kept: an entry of another shard, one that somebody holds, and one with a live block.
unfoldable pub survives : Surroundings → String → String → SequenceState → Bool
unfolding shard_index is_spent
survives around name other b =
    not (shard_index around other == shard_index around name)
    || around.in_use other
    || not (is_spent b)

-- Drops the spent entries of the shard of `name`.
unfoldable pub prune_spent : Surroundings → String → SequenceAllocator → SequenceAllocator
unfolding survives retain
prune_spent around name a =
    let entries = retain (survives around name) a.entries in
    record a {
      entries = entries;
      tracked_names = a.tracked_names - (length a.entries - length entries);
    }

unfoldable pub make_room : Surroundings → String → SequenceAllocator → SequenceAllocator
unfolding prune_spent
make_room around name a =
    if leb a.limits.max_tracked_names a.tracked_names then prune_spent around name a else a

unfoldable pub track :
    String → SequenceAllocator → SequenceAllocator × Result SequenceError SequenceState
unfolding insert empty
track name a = if leb a.limits.max_tracked_names a.tracked_names then (a, err ceiling) else (
  record a { entries = insert name empty a.entries; tracked_names = a.tracked_names + 1 },
  ok empty,
)

-- The allocator after the lookup, and the block of the name.
unfoldable pub entry_for :
    Surroundings
    → String
    → SequenceAllocator
    → SequenceAllocator × Result SequenceError SequenceState
unfolding lookup make_room track
entry_for around name a = elim (lookup name a.entries) [
  | some b ↦ (a, ok b)
  | none ↦ track name (make_room around name a)
]

module _ (store : SequenceStore) where
  open store use {Db}

  abbrev pub Answer : Type 0
  Answer = SequenceAllocator × Db × Result SequenceError ℤ

  -- The lock of the entry is given back with the state that the call left in it.
  unfoldable pub unlock : String → SequenceAllocator → Outcome store → Answer
  unfolding insert
  unlock name a (b, db, r) = (record a { entries = insert name b a.entries }, db, r)

  unfoldable pub with_entry :
      String
      → Db
      → (SequenceState → Outcome store)
      → SequenceAllocator × Result SequenceError SequenceState
      → Answer
  unfolding unlock
  with_entry name db body (a, ok b) = unlock name a (body b)
  with_entry name db body (a, err e) = (a, db, err e)

  unfoldable pub reserve : Surroundings → String → ℕ → SequenceAllocator → Db → Answer
  unfolding entry_for with_entry reserve_locked
  reserve around name increment a db =
      with_entry name db (λ b. reserve_locked store a.limits name increment b db)
        (entry_for around name a)

  unfoldable pub set : Surroundings → String → ℤ → SequenceAllocator → Db → Answer
  unfolding entry_for with_entry set_locked
  set around name value a db =
      with_entry name db (λ b. set_locked store name value b db) (entry_for around name a)
