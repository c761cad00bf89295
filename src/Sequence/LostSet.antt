-- ===== src/Sequence/LostSet.antt =====
-- `set` drops the block only after its write has been answered. A write that was applied although
-- its answer was lost leaves a block above the counter.
use fareward.Common.{some, ◌≡◌, refl, arith}
use fareward.Common.Int.{i64_max, ℤ, pos, ◌+ℤ◌, ◌-ℤ◌, ◌≤ℤ◌, ◌<ℤ◌, IsI64, -ℤ_parts, checked_i64_in}
use fareward.Common.Result.{ok, err}
use fareward.Sequence.Store.{StoreLaws, SequenceStore, SequenceError}
use fareward.Sequence.Block.{take, take_one, SequenceState}
use fareward.Sequence.Critical.{SequenceLimits, reserve_locked, set_locked, move_counter, ◌>>=◌}
use Prim.Native.String.{String}

-- A `set` whose bump reports an error answers that error and keeps the block, whatever the bump did
-- to the counter: a block that ended above the new value still does.
pub set_locked_lost :
    (store : SequenceStore) (name : String) (value previous : ℤ) (b : SequenceState) (db : store.Db)
    (e : SequenceError)
    → (store.read name db).1 ≡ ok previous
    → IsI64 (value -ℤ previous)
    → value <ℤ previous
    → (store.bump name (value -ℤ previous) (store.read name db).0).1 ≡ err e
    → set_locked store name value b db
      ≡ (b, (store.bump name (value -ℤ previous) (store.read name db).0).0, err e)
unfolding set_locked move_counter ◌>>=◌
set_locked_lost store name value previous b db e seen fits down lost =
    ground (arith, checked_i64_in (value -ℤ previous) fits, -ℤ_parts value previous)

-- So, where a live block stands under its counter and short of the last value of the type, and the
-- write of a `set` to a value below the next id of the block was applied but reports an error, the
-- `set` fails and the next `reserve` of one id hands out that id of the block, above the counter.
pub set_locked_lost-reserve_locked :
    (store : SequenceStore) (laws : StoreLaws store) (limits : SequenceLimits) (name : String)
    (value previous : ℤ) (b : SequenceState) (db : store.Db) (e : SequenceError)
    → (store.read name db).1 ≡ ok previous
    → IsI64 (value -ℤ previous)
    → (store.bump name (value -ℤ previous) (store.read name db).0).1 ≡ err e
    → laws.current (store.bump name (value -ℤ previous) (store.read name db).0).0 name ≡ value
    → (pos 1 ≤ℤ b.next) × (b.next ≤ℤ b.end) × (b.end ≤ℤ previous) × (b.end <ℤ i64_max)
    → value <ℤ b.next
    → let after = set_locked store name value b db in
      let answer = reserve_locked store limits name 1 after.0 after.1 in
      (after.2 ≡ err e) × (answer.2 ≡ ok b.next) × (laws.current answer.1 name <ℤ b.next)
unfolding reserve_locked
set_locked_lost-reserve_locked store laws limits name value previous b db e seen fits lost applied l
      below =
    rw (set_locked_lost store name value previous b db e seen fits (omega (arith, l)) lost)
      (refl, served, low)
  where
    db' : store.Db
    db' = (store.bump name (value -ℤ previous) (store.read name db).0).0

    taken : take b (pos 1) ≡ some (record b { next = b.next +ℤ pos 1 }, b.next)
    taken = take_one b l.1 l.0 l.3

    served : (reserve_locked store limits name 1 b db').2 ≡ ok b.next
    served = rw (taken, reserve_locked) refl

    low : laws.current (reserve_locked store limits name 1 b db').1 name <ℤ b.next
    low = rw (taken, reserve_locked) (rw applied below)
