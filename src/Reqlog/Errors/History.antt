-- ===== src/Reqlog/Errors/History.antt =====
-- src/reqlog/errors.rs: a history of errors at a gate, the latest first.
use fareward.Common.{
  ℕ, ◌≡◌, refl, sym, subst, ◌⊎◌, inl, inr, Bool, true, false, ◌&&◌, not, List, [], ◌∷◌, length, leb,
  if◌then◌else◌, Bool-cases,
}
use fareward.Common.KeyMap.{get, put}
use fareward.Reqlog.Errors.{
  ErrorKey, same_error, ErrorWriteGate, evict_oldest, is_recent, is_known, should_write,
}
use fareward.Reqlog.Errors.Ceiling.{same_error_sound}

-- An error with the time at which it came.
abbrev pub Report : Type 0
Report = ErrorKey × ℕ

abbrev pub answer : Report → ErrorWriteGate → ErrorWriteGate × Bool
answer ((id, code_line), now) gate = should_write id code_line now gate

unfoldable pub after : List Report → ErrorWriteGate → ErrorWriteGate
unfolding should_write
after [] gate = gate
after (report ∷ earlier) gate = (answer report (after earlier gate)).0

-- The errors that were written.
unfoldable pub written : List Report → ErrorWriteGate → List Report
unfolding after should_write
written [] gate = []
written (report ∷ earlier) gate =
    let rest = written earlier gate in
    if (answer report (after earlier gate)).1 then report ∷ rest else rest

pub same_error-cases : (a b : ErrorKey) → (a ≡ b) ⊎ (same_error a b ≡ false)
same_error-cases a b = elim (Bool-cases (same_error a b)) [
  | inl same ↦ inl (same_error_sound a b same)
  | inr other ↦ inr other
]

pub same_error_apart : (a b : ErrorKey) → same_error a b ≡ false → same_error b a ≡ false
same_error_apart a b apart = elim (same_error-cases b a) [
  | inl same ↦ cc (apart, same)
  | inr other ↦ other
]

-- Where the answer is written, and where it is not.
pub should_write-recent :
    (report : Report) (gate : ErrorWriteGate)
    → is_recent (get same_error report.0 gate.last_written) gate.freshness report.1 ≡ true
    → answer report gate ≡ (gate, false)
unfolding should_write
should_write-recent report gate h = rw (should_write, h) refl

abbrev pub entries_left : Report → ErrorWriteGate → List (ErrorKey × ℕ)
entries_left report gate =
    if leb gate.capacity (length gate.last_written)
      && not (is_known (get same_error report.0 gate.last_written))
    then evict_oldest gate.last_written
    else gate.last_written

pub should_write-stale :
    (report : Report) (gate : ErrorWriteGate)
    → is_recent (get same_error report.0 gate.last_written) gate.freshness report.1 ≡ false
    → answer report gate ≡ (
      record gate { last_written = put same_error report.0 report.1 (entries_left report gate) },
      true,
    )
unfolding should_write
should_write-stale report gate h = rw (should_write, h) refl

-- What holds after a report, where it is not written and where it is.
pub answer_elim :
    (P : ErrorWriteGate × Bool → Type 0) (report : Report) (gate : ErrorWriteGate)
    → (is_recent (get same_error report.0 gate.last_written) gate.freshness report.1 ≡ true
        → P (gate, false))
    → P (
      record gate { last_written = put same_error report.0 report.1 (entries_left report gate) },
      true,
    )
    → P (answer report gate)
answer_elim P report gate known stale_one =
    elim (Bool-cases
      (is_recent (get same_error report.0 gate.last_written) gate.freshness report.1)) [
        | inl recent ↦ subst P (sym (should_write-recent report gate recent)) (known recent)
        | inr stale ↦ subst P (sym (should_write-stale report gate stale)) stale_one
      ]

pub freshness-after :
    (reports : List Report) (gate : ErrorWriteGate)
    → ((after reports gate).freshness ≡ gate.freshness)
      × ((after reports gate).capacity ≡ gate.capacity)
unfolding after
freshness-after [] gate = (refl, refl)
freshness-after (report ∷ earlier) gate =
    answer_elim (λ a. (a.0.freshness ≡ gate.freshness) × (a.0.capacity ≡ gate.capacity)) report
      (after earlier gate) (λ recent. freshness-after earlier gate) (freshness-after earlier gate)
