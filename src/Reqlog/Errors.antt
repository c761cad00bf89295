-- ===== src/Reqlog/Errors.antt =====
-- src/reqlog/errors.rs: repeated errors are written once in a while. Times are in nanoseconds from
-- some start; the order in which a map is walked, which decides between entries of one time, is that
-- of its list.
pub mod Ceiling
pub mod History
pub mod Freshness
pub mod Repeats
use fareward.Common.{
  ℕ, ◌-◌, max, Bool, true, false, ◌&&◌, not, Option, none, some, List, [], ◌∷◌, leb, ltb,
  if◌then◌else◌, length,
}
use fareward.Common.Int.{ℤ, eqb_ℤ}
use fareward.Common.StringMap.{same_text}
use fareward.Common.KeyMap.{get, put, keep_if}
use Prim.Native.String.{String}

abbrev pub ErrorKey : Type 0
ErrorKey = ℤ × String

unfoldable pub same_error : ErrorKey → ErrorKey → Bool
unfolding same_text
same_error a b = eqb_ℤ a.0 b.0 && same_text a.1 b.1

pub record ErrorWriteGate : Type 0 where
  pub last_written : List (ErrorKey × ℕ)
  pub freshness : ℕ
  pub capacity : ℕ

abbrev pub new : ℕ → ℕ → ErrorWriteGate
new freshness capacity = record {
  last_written = [];
  freshness = freshness;
  capacity = max capacity 1;
}

-- `min_by_key`
unfoldable pub oldest : List (ErrorKey × ℕ) → Option (ErrorKey × ℕ)
oldest [] = none
oldest ((key, written_at) ∷ entries) = elim (oldest entries) [
  | none ↦ some (key, written_at)
  | some later ↦ if leb written_at later.1 then some (key, written_at) else some later
]

unfoldable pub evict_oldest : List (ErrorKey × ℕ) → List (ErrorKey × ℕ)
unfolding oldest keep_if same_error
evict_oldest entries = elim (oldest entries) [
  | none ↦ entries
  | some entry ↦ keep_if same_error (λ key _. not (same_error key entry.0)) entries
]

-- Whether the error was written a short while ago.
abbrev pub is_recent : Option ℕ → ℕ → ℕ → Bool
is_recent none freshness now = false
is_recent (some written_at) freshness now = ltb (now - written_at) freshness

abbrev pub is_known : Option ℕ → Bool
is_known none = false
is_known (some written_at) = true

unfoldable pub should_write : ℤ → String → ℕ → ErrorWriteGate → ErrorWriteGate × Bool
unfolding get put evict_oldest
should_write id code_line now gate =
    let found = get same_error (id, code_line) gate.last_written in
    if is_recent found gate.freshness now
    then (gate, false)
    else (let entries =
          if leb gate.capacity (length gate.last_written) && not (is_known found)
          then evict_oldest gate.last_written
          else gate.last_written in
        (record gate { last_written = put same_error (id, code_line) now entries }, true))
