-- ===== src/Sequence/Store.antt =====
-- src/sequence/store.rs: the trait `SequenceStore`, and what its implementation over the database
-- is relied on for. The database is not part of the repository, so the store is a parameter.
use fareward.Common.{◌≡◌, ◌≢◌, ◌⊎◌, Option, none, some}
use fareward.Common.Int.{ℤ, pos, ◌+ℤ◌, IsI64}
use fareward.Common.Result.{Result, ok}
use Prim.Native.String.{String}

-- The messages of the errors that the allocator raises.
pub data SequenceError : Type 0 where
  storage overflowed unrepairable cannot_move ceiling uncovered : SequenceError

-- An `await`ed call answers, and leaves the database in some state, also when it fails.
pub record SequenceStore : Type 1 where
  pub Db : Type 0
  pub bump : String → ℤ → Db → Db × Result SequenceError (Unit {0})
  pub read : String → Db → Db × Result SequenceError ℤ

module _ (store : SequenceStore) where
  open store use {Db, bump, read}

  -- What the comments of the trait promise, for counters that nothing else writes. A bump that fails
  -- may have been applied. Nothing is said of a bump that leaves the range of the column.
  pub record StoreLaws : Type 0 where
    pub current : Db → String → ℤ
    pub bump_ok :
        (db : Db) (name : String) (by : ℤ)
        → IsI64 (current db name +ℤ by)
        → (bump name by db).1 ≡ ok tt
        → current (bump name by db).0 name ≡ current db name +ℤ by
    pub bump_err :
        (db : Db) (name : String) (by : ℤ)
        → IsI64 (current db name +ℤ by)
        → (current (bump name by db).0 name ≡ current db name)
          ⊎ (current (bump name by db).0 name ≡ current db name +ℤ by)
    pub bump_other :
        (db : Db) (name other : String) (by : ℤ)
        → name ≢ other
        → current (bump name by db).0 other ≡ current db other
    pub read_ok :
        (db : Db) (name : String) (value : ℤ)
        → (read name db).1 ≡ ok value
        → value ≡ current db name
    pub read_keeps :
        (db : Db) (name other : String) → current (read name db).0 other ≡ current db other

-- `rows.next()` of the adapter: no row and an empty cell both read as zero.
unfoldable pub counter_value : Option (Option ℤ) → ℤ
counter_value (some (some counter)) = counter
counter_value (some none) = pos 0
counter_value none = pos 0
