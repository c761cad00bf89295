-- ===== src/Sequence/History.antt =====
-- Histories of the allocator: calls of `reserve` and `set` that succeed or fail, and restarts of the
-- process, over one database.
use fareward.Common.{ℕ, ◌^◌, ◌<◌, ◌≤◌, ◌≡◌, List, [], All}
use fareward.Common.Int.{ℤ, pos, ◌+ℤ◌, ◌≤ℤ◌, IsI64}
use fareward.Common.Result.{ok}
use fareward.Sequence.Store.{SequenceStore, StoreLaws}
use fareward.Sequence.Critical.{SequenceLimits, block_for}
use fareward.Sequence.Claims.{HasRoom}
use fareward.Sequence.Allocator.{SequenceAllocator, Surroundings, new, reserve, set}
use fareward.Sequence.Unique.{Range, note, Inv}
use Prim.Native.String.{String}

-- No id of the counter above the value was handed out.
abbrev pub IsAbove : String → ℤ → List Range → Type 0
IsAbove name value = All (λ r. r.name ≡ name → r.first +ℤ r.count ≤ℤ value +ℤ pos 1)

module _ (store : SequenceStore) where
  open store use {Db}

  -- The process, the database, and every range that was handed out.
  pub record System : Type 0 where
    pub allocator : SequenceAllocator
    pub db : Db
    pub issued : List Range

  abbrev pub reserved : Surroundings → String → ℕ → System → System
  reserved around name increment s =
      let answer = reserve store around name increment s.allocator s.db in
      record { allocator = answer.0; db = answer.1; issued = note name increment answer.2 s.issued }

  abbrev pub moved : Surroundings → String → ℤ → System → System
  moved around name value s =
      let answer = set store around name value s.allocator s.db in
      record { allocator = answer.0; db = answer.1; issued = s.issued }

  -- A process that starts on a database, with nothing handed out.
  abbrev pub started : SequenceLimits → Db → System
  started limits db = record { allocator = new limits; db = db; issued = [] }

module _ (store : SequenceStore) (laws : StoreLaws store) where
  open store use {Db, bump, read}
  open laws use {current}

  -- A call of `reserve` may fail. A `set` moves its counter up and may fail, or moves it to a value
  -- that covers what was handed out and succeeds.
  pub data Step : System store → System store → Type 0 where
    reserves :
        (s : System store) (around : Surroundings) (name : String) (increment : ℕ)
        → 1 ≤ increment
        → increment < 2 ^ 32
        → s.allocator.limits.block_size < 2 ^ 32
        → HasRoom (current s.db name +ℤ block_for s.allocator.limits increment)
        → Step s (reserved store around name increment s)
    raises :
        (s : System store) (around : Surroundings) (name : String) (value : ℤ)
        → IsI64 value
        → current s.db name ≤ℤ value
        → Step s (moved store around name value s)
    sets :
        (s : System store) (around : Surroundings) (name : String) (value previous : ℤ)
        → IsI64 value
        → IsAbove name value s.issued
        → (set store around name value s.allocator s.db).2 ≡ ok previous
        → Step s (moved store around name value s)
    restarts :
        (s : System store) (limits : SequenceLimits) → Step s (record s { allocator = new limits })

  pub data Run (s : System store) : System store → Type 0 where
    here : Run s s
    next : {t u : System store} → Run s t → Step t u → Run s u

  abbrev pub IsGood : System store → Type 0
  IsGood s = Inv store laws s.allocator.entries s.db s.issued
