-- ===== src/Sequence/Wraps.antt =====
-- src/sequence/allocator.rs: a block that ends at the last value of the type.
use fareward.Common.{ℕ, ◌+◌, ◌^◌, ◌≤◌, ◌≡◌, refl, List, [], ◌∷◌, All, some, arith}
use fareward.Common.Int.{
  ℤ, pos, ◌+ℤ◌, ◌-ℤ◌, ◌≤ℤ◌, ◌<ℤ◌, i64_min, i64_max, checked_i64_in, wrap_i64_in, +ℤ_parts, -ℤ_parts,
  eq_of_parts, eq_parts,
}
use fareward.Common.Result.{Result, ok}
use fareward.Sequence.Store.{SequenceStore, SequenceError}
use fareward.Sequence.Block.{SequenceState, take, take_wraps}
use fareward.Sequence.Critical.{SequenceLimits, reserve_locked}
use Prim.Native.String.{String}

-- The block is used up and its next value has wrapped round.
take_wrapped :
    (b : SequenceState) (increment : ℕ)
    → 1 ≤ increment
    → b.end ≡ i64_max
    → i64_min ≤ℤ b.next
    → b.next +ℤ pos increment ≤ℤ pos 0
    → take b (pos increment) ≡ some (record b { next = b.next +ℤ pos increment }, b.next)
unfolding take
take_wrapped b increment h top low room = ground (
  arith,
  h,
  low,
  room,
  eq_parts top,
  -ℤ_parts (pos increment) (pos 1),
  +ℤ_parts b.next (pos increment),
  +ℤ_parts b.next (pos increment -ℤ pos 1),
  checked_i64_in (b.next +ℤ (pos increment -ℤ pos 1)),
  +ℤ_parts (b.next +ℤ (pos increment -ℤ pos 1)) (pos 1),
  wrap_i64_in (b.next +ℤ (pos increment -ℤ pos 1) +ℤ pos 1),
  eq_of_parts (b.next +ℤ (pos increment -ℤ pos 1) +ℤ pos 1) (b.next +ℤ pos increment),
)

abbrev pub sum : List ℕ → ℕ
sum [] = 0
sum (x ∷ xs) = x + sum xs

module _ (store : SequenceStore) (limits : SequenceLimits) (name : String) where
  open store use {Db}

  -- The answers to requests one after another.
  unfoldable pub answers : List ℕ → SequenceState → Db → List (Result SequenceError ℤ)
  unfolding reserve_locked
  answers [] b db = []
  answers (increment ∷ increments) b db =
      let (b', db', answer) = reserve_locked store limits name increment b db in
      answer ∷ answers increments b' db'

  -- An answer with a first id below zero.
  abbrev pub IsNegative : Result SequenceError ℤ → Type 0
  IsNegative answer = (id : ℤ) × (answer ≡ ok id) × (id <ℤ pos 0)

  answers-IsNegative :
      (increments : List ℕ) (b : SequenceState) (db : Db)
      → All (λ increment. 1 ≤ increment) increments
      → b.end ≡ i64_max
      → i64_min ≤ℤ b.next
      → b.next +ℤ pos (sum increments) ≤ℤ pos 0
      → All IsNegative (answers increments b db)
  unfolding answers reserve_locked
  answers-IsNegative [] b db h top low room = tt
  answers-IsNegative (increment ∷ increments) b db (h, hs) top low room =
      let rest = pos (sum increments) in
      let total = +ℤ_parts b.next (pos (increment + sum increments)) in
      let moved = +ℤ_parts b.next (pos increment) in
      let taken = take_wrapped b increment h top low (omega (arith, room, total, moved)) in
      let b' : SequenceState = record b { next = b.next +ℤ pos increment } in
      rw (reserve_locked, taken)
        (
          (b.next, refl, omega (arith, h, room, total)),
          answers-IsNegative increments b' db hs top (omega (arith, low, moved))
              (omega (arith, room, total, moved, +ℤ_parts b'.next rest)),
        )

  -- A request that takes the last value of a block which ends at the last value of the type is served,
  -- and every further positive request is answered with success and a negative id, as long as they ask
  -- for no more than 2^63 ids in all.
  pub reserve_locked-IsNegative :
      (increment : ℕ) (increments : List ℕ) (b : SequenceState) (db : Db)
      → b.end ≡ i64_max
      → b.next +ℤ (pos increment -ℤ pos 1) ≡ i64_max
      → All (λ more. 1 ≤ more) increments
      → sum increments ≤ 2 ^ 63
      → let first = reserve_locked store limits name increment b db in
        (first.2 ≡ ok b.next) × All IsNegative (answers increments first.0 first.1)
  unfolding reserve_locked
  reserve_locked-IsNegative increment increments b db top last h room =
      let wrapped : SequenceState = record { next = i64_min; end = i64_max } in
      let taken = (take_wraps b (pos increment) top last).0 in
      rw (reserve_locked, taken)
        (
          refl,
          answers-IsNegative increments wrapped db h refl (omega arith)
              (omega (arith, room, +ℤ_parts i64_min (pos (sum increments)))),
        )
