-- ===== src/Sequence/Critical.antt =====
-- src/sequence/allocator.rs: what `reserve` and `set` do while they hold the lock of one counter.
-- The counter's block is passed and returned beside the database.
use fareward.Common.{ℕ, ◌≡◌, refl, Option, none, some, if◌then◌else◌, max}
use fareward.Common.Int.{ℤ, pos, ◌+ℤ◌, ◌-ℤ◌, ltb_ℤ, checked_i64, eqb_ℤ}
use fareward.Common.Result.{Result, ok, err, ok_or}
use fareward.Sequence.Store.{
  SequenceStore, SequenceError, overflowed, unrepairable, cannot_move, uncovered,
}
use fareward.Sequence.Block.{SequenceState, empty, take}
use Prim.Native.String.{String}

pub record SequenceLimits : Type 0 where
  pub block_size : ℕ
  pub max_tracked_names : ℕ

-- `first_owned`: `reached - block + 1`, each operation checked.
unfoldable pub first_owned : ℤ → ℤ → Option ℤ
first_owned reached block = elim (checked_i64 (reached -ℤ block)) [
  | none ↦ none
  | some previous ↦ checked_i64 (previous +ℤ pos 1)
]

-- `increment.max(i64::from(self.limits.block_size))`
abbrev pub block_for : SequenceLimits → ℕ → ℤ
block_for limits increment = pos (max increment limits.block_size)

module _ (store : SequenceStore) where
  open store use {Db, bump, read}

  -- An asynchronous function over the database that may fail.
  abbrev pub Call : Type 0 → Type 0
  Call A = Db → Db × Result SequenceError A

  infixl 5 ◌>>=◌ ◌>>◌
  unfoldable pub ◌>>=◌ : {A B : Type 0} → Call A → (A → Call B) → Call B
  ◌>>=◌ m f db = elim (m db).1 [ ok a ↦ f a (m db).0 | err e ↦ ((m db).0, err e) ]

  abbrev pub ◌>>◌ : {B : Type 0} → Call (Unit {0}) → Call B → Call B
  m >> k = m >>= λ _. k

  abbrev pub done : {A : Type 0} → A → Call A
  done a db = (db, ok a)

  abbrev pub from_option : {A : Type 0} → Option A → SequenceError → Call A
  from_option o e db = (db, ok_or o e)

  -- What holds of a chain of calls, from what holds after its first call.
  pub >>=-rule :
      {A B : Type 0} (P : Db × Result SequenceError B → Type 0) (m : Call A) (f : A → Call B)
      (db : Db)
      → ((a : A) → (m db).1 ≡ ok a → P (f a (m db).0))
      → ((e : SequenceError) → (m db).1 ≡ err e → P ((m db).0, err e))
      → P ((m >>= f) db)
  unfolding ◌>>=◌
  >>=-rule {A} {B} P m f db won lost = go (m db).1 refl
    where
      go :
          (r : Result SequenceError A)
          → (m db).1 ≡ r
          → P (elim r [ ok a ↦ f a (m db).0 | err e ↦ ((m db).0, err e) ])
      go (ok a) h = won a h
      go (err e) h = lost e h

  unfoldable pub repair : String → ℤ → ℤ → Call (ℤ × ℤ)
  repair name reached block = do
    correction ← from_option (checked_i64 (block -ℤ reached)) unrepairable
    bump name correction
    done (pos 1, block)

  unfoldable pub claim_block : String → ℤ → ℤ → Call (ℤ × ℤ)
  unfolding first_owned repair
  claim_block name reached block = do
    first ← from_option (first_owned reached block) overflowed
    if ltb_ℤ (pos 0) first then done (first, reached) else repair name reached block

  unfoldable pub load_block : String → ℤ → Call (ℤ × ℤ)
  unfolding claim_block
  load_block name block = do bump name block; reached ← read name; claim_block name reached block

  -- The state of the counter, that of the database and the answer.
  abbrev pub Outcome : Type 0
  Outcome = SequenceState × Db × Result SequenceError ℤ

  -- `*state = SequenceState { .. }; state.take(increment)`
  unfoldable pub take_fresh : ℤ → Db → ℤ × ℤ → Outcome
  take_fresh increment db (first, last) =
      elim (take (record { next = first; end = last }) increment) [
        | none ↦ (record { next = first; end = last }, db, err uncovered)
        | some (b, start) ↦ (b, db, ok start)
      ]

  unfoldable pub refill : SequenceState → ℤ → Db × Result SequenceError (ℤ × ℤ) → Outcome
  unfolding take_fresh
  refill b increment (db, ok range) = take_fresh increment db range
  refill b increment (db, err e) = (b, db, err e)

  -- The body of `reserve` from `entry.lock()` on.
  unfoldable pub reserve_locked : SequenceLimits → String → ℕ → SequenceState → Db → Outcome
  unfolding refill load_block
  reserve_locked limits name increment b db = elim (take b (pos increment)) [
    | some (b', start) ↦ (b', db, ok start)
    | none ↦ refill b (pos increment) (load_block name (block_for limits increment) db)
  ]

  unfoldable pub move_counter : String → ℤ → Call ℤ
  move_counter name value = do
    previous ← read name
    delta ← from_option (checked_i64 (value -ℤ previous)) cannot_move
    if eqb_ℤ delta (pos 0) then done tt else bump name delta
    done previous

  -- The body of `set` from `entry.lock()` on: an error leaves the block as it was.
  unfoldable pub set_locked : String → ℤ → SequenceState → Db → Outcome
  unfolding move_counter empty
  set_locked name value b db =
      let (db', r) = move_counter name value db in (elim r [ ok _ ↦ empty | err _ ↦ b ], db', r)
