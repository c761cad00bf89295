-- ===== src/Tests/Sequences.antt =====
-- src/sequence: a database in memory, whose bumps may report an error although they were applied,
-- and the theorems about the allocator over it.
use fareward.Common.{
  ◌-◌, ◌^◌, ◌≡◌, refl, ◌≢◌, inr, Bool, true, false, [], ◌∷◌, arith, if◌then◌else◌, All,
}
use fareward.Common.Int.{checked_i64, ℤ, pos, ◌+ℤ◌, ◌-ℤ◌, i64_max}
use fareward.Common.Result.{ok, err}
use fareward.Sequence.Store.{SequenceStore, StoreLaws, storage}
use fareward.Sequence.Block.{SequenceState, take}
use fareward.Sequence.Critical.{◌>>=◌, SequenceLimits, reserve_locked, set_locked}
use fareward.Sequence.Serves.{Serves, reserve_locked-Serves}
use fareward.Sequence.Sets.{Moves, set_locked-Moves}
use fareward.Sequence.Allocator.{Surroundings, reserve, new}
use fareward.Sequence.Unique.{note, AreApart, IsCovered}
use fareward.Sequence.History.{System, Run, reserves, restarts, here, next, started, reserved}
use fareward.Sequence.NoReuse.{Run-AreApart}
use fareward.Sequence.Wraps.{answers, IsNegative, reserve_locked-IsNegative}
use fareward.Sequence.LostSet.{set_locked_lost-reserve_locked}
use Prim.Native.String.{String}
use text.Mathlib.Text.{◌==◌}
use text.Mathlib.TextEquality.{eq_iff}

record MemoryDb : Type 0 where
  value : String → ℤ
  lossy : Bool

abbrev memory : SequenceStore
memory = record {
  Db = MemoryDb;
  bump = λ name by db. (
    record db { value = λ k. if name == k then db.value k +ℤ by else db.value k },
    if db.lossy then err storage else ok tt,
  );
  read = λ name db. (db, ok (db.value name));
}

moved_self :
    (db : MemoryDb) (name : String) (by : ℤ)
    → (memory.bump name by db).0.value name ≡ db.value name +ℤ by
moved_self db name by = rw ((eq_iff name name).1 refl) refl

moved_other :
    (db : MemoryDb) (name other : String) (by : ℤ)
    → name ≢ other
    → (memory.bump name by db).0.value other ≡ db.value other
moved_other db name other by n = ground (arith, eq_iff name other)

read_value :
    (db : MemoryDb) (name : String) (value : ℤ)
    → (memory.read name db).1 ≡ ok value
    → value ≡ db.value name
read_value db name value h = cc

abbrev memory_laws : StoreLaws memory
memory_laws = record {
  current = λ db. db.value;
  bump_ok = λ db name by _ _. moved_self db name by;
  bump_err = λ db name by _. inr (moved_self db name by);
  bump_other = moved_other;
  read_ok = read_value;
  read_keeps = λ db name other. refl;
}

abbrev zeroed : MemoryDb
zeroed = record { value = λ _. pos 0; lossy = false }

abbrev limits : SequenceLimits
limits = record { block_size = 10; max_tracked_names = 8 }

abbrev around : Surroundings
around = record { hash_name = λ _. 0; shard_count = 4; in_use = λ _. false }

-- Two calls, a restart, and a third call.
abbrev fresh_system : System memory
fresh_system = started memory limits zeroed

abbrev first_call : System memory
first_call = reserved memory around "users" 3 fresh_system

abbrev after_restart : System memory
after_restart = record first_call { allocator = new limits }

abbrev second_call : System memory
second_call = reserved memory around "users" 4 after_restart

program : Unit {0}
unfolding reserve take note new checked_i64 ◌+ℤ◌ ◌-ℤ◌ ◌>>=◌
program = tt

second_call_lem :
    second_call.issued
    ≡ record { name = "users"; first = pos 11; count = pos 4 }
      ∷ record { name = "users"; first = pos 1; count = pos 3 }
      ∷ []
unfolding program
second_call_lem = refl

history : Run memory memory_laws fresh_system second_call
unfolding program
history =
    next
      (next
        (next here (
          reserves fresh_system around "users" 3 (omega arith) (omega arith) (omega arith)
            (omega arith)))
        (restarts first_call limits))
      (reserves after_restart around "users" 4 (omega arith) (omega arith) (omega arith)
        (omega arith))

Run-AreApart_example :
    AreApart second_call.issued
    × All (IsCovered memory memory_laws second_call.db) second_call.issued
Run-AreApart_example = Run-AreApart memory memory_laws limits zeroed history

abbrev held : SequenceState
held = record { next = pos 5; end = pos 10 }

abbrev at_ten : MemoryDb
at_ten = record { value = λ _. pos 10; lossy = false }

abbrev lossy_at_ten : MemoryDb
lossy_at_ten = record { value = λ _. pos 10; lossy = true }

reserve_locked-Serves_example :
    Serves memory memory_laws "users"
      (pos 7)
      held
      at_ten
      (reserve_locked memory limits "users" 7 held at_ten)
unfolding ◌+ℤ◌
reserve_locked-Serves_example =
    reserve_locked-Serves memory memory_laws limits "users" 7 held at_ten (omega arith)
      (omega arith) (omega arith) (inr (omega arith)) (omega arith)

set_locked-Moves_example : Moves memory memory_laws "users" (pos 40) at_ten (
  (set_locked memory "users" (pos 40) held at_ten).1,
  (set_locked memory "users" (pos 40) held at_ten).2,
)
set_locked-Moves_example =
    (set_locked-Moves memory memory_laws "users" (pos 40) held at_ten (omega arith)).0

abbrev at_the_top : SequenceState
at_the_top = record { next = pos (2 ^ 63 - 3); end = i64_max }

reserve_locked-IsNegative_example :
    let first = reserve_locked memory limits "users" 3 at_the_top at_ten in
    (first.2 ≡ ok (pos (2 ^ 63 - 3)))
    × All
        (IsNegative memory limits "users")
        (answers memory limits "users" (1 ∷ 5 ∷ []) first.0 first.1)
unfolding ◌+ℤ◌ ◌-ℤ◌
reserve_locked-IsNegative_example =
    reserve_locked-IsNegative memory limits "users" 3 (1 ∷ 5 ∷ []) at_the_top at_ten refl refl
      (omega arith, (omega arith, tt)) (omega arith)

lost_example :
    (reserve_locked memory limits "users" 1
      (set_locked memory "users" (pos 4) held lossy_at_ten).0
      (set_locked memory "users" (pos 4) held lossy_at_ten).1).2
    ≡ ok (pos 5)
unfolding ◌+ℤ◌ ◌-ℤ◌
lost_example =
    (set_locked_lost-reserve_locked memory memory_laws limits "users" (pos 4) (pos 10) held
      lossy_at_ten storage refl (omega arith) refl refl (omega arith) (omega arith)).1
