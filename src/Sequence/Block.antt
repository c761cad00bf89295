-- ===== src/Sequence/Block.antt =====
-- src/sequence/allocator.rs: `SequenceState`, the range that the daemon owns for one counter.
use fareward.Common.{false, refl, ◌⊎◌, ◌≡◌, Bool, Option, none, some, arith, if◌then◌else◌}
use fareward.Common.Int.{
  ℤ, checked_i64_in, checked_i64-i64_max, wrap_i64-i64_max, i64_min, pos, ◌+ℤ◌, ◌-ℤ◌, ◌≤ℤ◌, ◌<ℤ◌,
  ltb_ℤ, checked_i64, wrap_i64, i64_max, checked_i64-cases, wrap_i64_in, +ℤ_parts, -ℤ_parts,
  eq_of_parts,
}

pub record SequenceState : Type 0 where
  pub next : ℤ
  pub end : ℤ

unfoldable pub empty : SequenceState
empty = record { next = pos 1; end = pos 0 }

unfoldable pub is_spent : SequenceState → Bool
is_spent b = ltb_ℤ b.end b.next

-- `last + 1` is an `i64` addition of the release profile, which wraps.
unfoldable pub take : SequenceState → ℤ → Option (SequenceState × ℤ)
take b increment = elim (checked_i64 (b.next +ℤ (increment -ℤ pos 1))) [
  | none ↦ none
  | some last ↦
      if ltb_ℤ b.end last then none else some (record b { next = wrap_i64 (last +ℤ pos 1) }, b.next)
]

-- The block lies under the counter's value: it is spent, or its values are positive, not above the
-- counter, and short of the end of the type.
abbrev pub IsOwned : SequenceState → ℤ → Type 0
IsOwned b current =
    (b.end <ℤ b.next) ⊎ ((pos 1 ≤ℤ b.next) × (b.end ≤ℤ current) × (b.end <ℤ i64_max))

-- Nothing of a range that starts at `first` and has `count` values is still in the block.
abbrev pub IsPast : SequenceState → ℤ → ℤ → Type 0
IsPast b first count = (b.end <ℤ b.next) ⊎ (first +ℤ count ≤ℤ b.next)

pub take-some :
    (b : SequenceState) (increment : ℤ) {b' : SequenceState} {start : ℤ}
    → pos 1 ≤ℤ increment
    → b.end <ℤ i64_max
    → pos 1 ≤ℤ b.next
    → take b increment ≡ some (b', start)
    → (start ≡ b.next)
      × (b'.next ≡ b.next +ℤ increment)
      × (b'.end ≡ b.end)
      × (b.next +ℤ increment ≤ℤ b.end +ℤ pos 1)
unfolding take
take-some b increment h top low e = ground (
  arith,
  +ℤ_parts b.next increment,
  -ℤ_parts increment (pos 1),
  +ℤ_parts b.next (increment -ℤ pos 1),
  +ℤ_parts (b.next +ℤ (increment -ℤ pos 1)) (pos 1),
  +ℤ_parts b.end (pos 1),
  checked_i64-cases (b.next +ℤ (increment -ℤ pos 1)),
  wrap_i64_in (b.next +ℤ (increment -ℤ pos 1) +ℤ pos 1),
  eq_of_parts (b.next +ℤ (increment -ℤ pos 1) +ℤ pos 1) (b.next +ℤ increment),
)

-- A spent block serves nothing, whatever it is asked for.
pub take_spent :
    (b : SequenceState) (increment : ℤ)
    → pos 1 ≤ℤ increment
    → b.end <ℤ b.next
    → take b increment ≡ none
unfolding take
take_spent b increment h s = ground (
  arith,
  -ℤ_parts increment (pos 1),
  +ℤ_parts b.next (increment -ℤ pos 1),
  checked_i64-cases (b.next +ℤ (increment -ℤ pos 1)),
)

-- A live block refuses only what reaches past its end.
pub take_none :
    (b : SequenceState) (increment : ℤ)
    → pos 1 ≤ℤ increment
    → b.end <ℤ i64_max
    → pos 1 ≤ℤ b.next
    → take b increment ≡ none
    → b.end +ℤ pos 1 <ℤ b.next +ℤ increment
unfolding take
take_none b increment h top low e = ground (
  arith,
  -ℤ_parts increment (pos 1),
  +ℤ_parts b.next increment,
  +ℤ_parts b.end (pos 1),
  +ℤ_parts b.next (increment -ℤ pos 1),
  checked_i64_in (b.next +ℤ (increment -ℤ pos 1)),
)

-- Where the block ends at the last value of the type, taking that value wraps the next one round to
-- the first of the type, and the block, which is used up, is not spent.
pub take_wraps :
    (b : SequenceState) (increment : ℤ)
    → b.end ≡ i64_max
    → b.next +ℤ (increment -ℤ pos 1) ≡ i64_max
    → take b increment ≡ some (record { next = i64_min; end = i64_max }, b.next)
      × (is_spent (record { next = i64_min; end = i64_max }) ≡ false)
unfolding take is_spent
take_wraps b increment e f = rw (f, take, checked_i64-i64_max, e, wrap_i64-i64_max) (refl, refl)

-- A live block hands out its next value.
pub take_one :
    (b : SequenceState)
    → b.next ≤ℤ b.end
    → pos 1 ≤ℤ b.next
    → b.end <ℤ i64_max
    → take b (pos 1) ≡ some (record b { next = b.next +ℤ pos 1 }, b.next)
unfolding take
take_one b live low top = ground (
  arith,
  -ℤ_parts (pos 1) (pos 1),
  +ℤ_parts b.next (pos 1 -ℤ pos 1),
  eq_of_parts (b.next +ℤ (pos 1 -ℤ pos 1)) b.next,
  checked_i64_in b.next,
  +ℤ_parts b.next (pos 1),
  wrap_i64_in (b.next +ℤ pos 1),
)
