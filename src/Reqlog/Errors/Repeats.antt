-- ===== src/Reqlog/Errors/Repeats.antt =====
-- src/reqlog/errors.rs: an error is kept back for a while, once it was written.
use fareward.Common.{
  ◌↔◌, ℕ, suc, ◌+◌, ◌≤◌, ◌<◌, ◌≡◌, refl, sym, ap, ◌∙◌, subst, inl, inr, true, false, Option, none,
  some, List, [], ◌∷◌, length, leb, max, if◌then◌else◌, All, if_elim, some-injective, arith,
}
use fareward.Common.Int.{ℤ}
use fareward.Common.KeyMap.{get, put, get-put_self, get-put_ne, length-put}
use fareward.Reqlog.Errors.{ErrorKey, same_error, ErrorWriteGate, is_recent, should_write, new}
use fareward.Reqlog.Errors.Ceiling.{same_error_sound, same_error_self}
use mathlib.Core.List.{Memᴰ}
use mathlib.Core.List.Memᴰ.{not-nil, cases_cons}
use Prim.Native.String.{String}
use fareward.Reqlog.Errors.Freshness.{should_write-written}
use fareward.Reqlog.Errors.History.{
  Report, answer, after, written, same_error-cases, should_write-recent, entries_left, answer_elim,
  freshness-after,
}

-- No report comes before an earlier one.
abbrev pub IsOrdered : List Report → Type 0
IsOrdered [] = Unit {0}
IsOrdered (report ∷ earlier) = All (λ old. old.1 ≤ report.1) earlier × IsOrdered earlier

written-le :
    (reports : List Report) (gate : ErrorWriteGate) (key : ErrorKey) (t bound : ℕ)
    → All (λ old. old.1 ≤ bound) reports
    → Memᴰ (key, t) (written reports gate)
    → t ≤ bound
unfolding written
written-le [] gate key t bound h = λ m. absurd (not-nil m)
written-le (report ∷ earlier) gate key t bound (now, older) =
    if_elim (λ ws. Memᴰ {A = Report} (key, t) ws → t ≤ bound) (answer report (after earlier gate)).1
      (λ m. elim (cases_cons {A = Report} {b = report} {l = written earlier gate} m) [
        | inl same ↦ subst (λ (r : Report). r.1 ≤ bound) (sym same) now
        | inr old ↦ written-le earlier gate key t bound older old
      ])
      (written-le earlier gate key t bound older)

-- Below its ceiling a gate forgets nothing.
all_left :
    (report : Report) (gate : ErrorWriteGate)
    → length gate.last_written < gate.capacity
    → entries_left report gate ≡ gate.last_written
all_left report gate h =
    let room : leb gate.capacity (length gate.last_written) ≡ false = ground (arith, h) in
    rw room refl

length-put_le :
    (key : ErrorKey) (now : ℕ) (m : List (ErrorKey × ℕ))
    → length (put same_error key now m) ≤ suc (length m)
length-put_le key now m = ground (arith, length-put same_error key now m)

length-after :
    (reports : List Report) (freshness capacity : ℕ)
    → length reports ≤ max capacity 1
    → length (after reports (new freshness capacity)).last_written ≤ length reports
unfolding after
length-after [] freshness capacity h = omega arith
length-after (report ∷ earlier) freshness capacity h =
    let start = new freshness capacity in
    let gate = after earlier start in
    let held = length-after earlier freshness capacity (omega (arith, h)) in
    let room : length gate.last_written < gate.capacity =
      omega (arith, held, h, (freshness-after earlier start).1) in
    answer_elim (λ a. length a.0.last_written ≤ suc (length earlier)) report gate
      (λ recent. omega (arith, held))
      (omega (
        arith,
        held,
        length-put_le report.0 report.1 (entries_left report gate),
        ap (λ m. length m) (all_left report gate room),
      ))

-- What was written is known, since then or since a later write.
written_known :
    (reports : List Report) (freshness capacity : ℕ) (key : ErrorKey) (t : ℕ)
    → IsOrdered reports
    → length reports ≤ max capacity 1
    → Memᴰ (key, t) (written reports (new freshness capacity))
    → (u : ℕ) × (get same_error key (after reports (new freshness capacity)).last_written ≡ some u)
      × (t ≤ u)
unfolding after written
written_known [] freshness capacity key t ordered h = λ m. absurd (not-nil m)
written_known (report ∷ earlier) freshness capacity key t (order, ordered) h =
    let start = new freshness capacity in
    let gate = after earlier start in
    let rest = written earlier start in
    let before = written_known earlier freshness capacity key t ordered (omega (arith, h)) in
    let room : length gate.last_written < gate.capacity = omega (
      arith,
      length-after earlier freshness capacity (omega (arith, h)),
      h,
      (freshness-after earlier start).1,
    ) in
    let here =
      get-put_self same_error same_error_sound same_error_self report.0 report.1
        (entries_left report gate) in
    answer_elim
      (λ a.
        Memᴰ (key, t) (if a.1 then report ∷ rest else rest)
        → (u : ℕ) × (get same_error key a.0.last_written ≡ some u) × (t ≤ u))
      report gate (λ recent. before)
      (λ m. elim (same_error-cases report.0 key) [
        | inl same ↦ (
          report.1,
          subst
              (λ k.
                get same_error k (put same_error report.0 report.1 (entries_left report gate))
                ≡ some report.1)
              same here,
          elim (cases_cons m) [
            | inl newest ↦ subst (λ (r : Report). r.1 ≤ report.1) (sym newest) (omega arith)
            | inr old ↦ written-le earlier start key t report.1 order old
          ],
        )
        | inr apart ↦ elim (cases_cons m) [
          | inl newest ↦ cc (apart, ap (λ r. r.0) newest, same_error_self key)
          | inr old ↦
              let (u, found, later) = before old in
              (
                u,
                get-put_ne same_error same_error_sound same_error_self report.0 key report.1
                      (entries_left report gate) apart
                    ∙ ap (λ m. get same_error key m) (all_left report gate room)
                    ∙ found,
                later,
              )
        ]
      ])

recent_found :
    (found : Option ℕ) (freshness now t u : ℕ)
    → found ≡ some u
    → t ≤ u
    → t ≤ now
    → now < t + freshness
    → is_recent found freshness now ≡ true
recent_found none freshness now t u e a b c = absurd (ground (arith, e))
recent_found (some w) freshness now t u e a b c =
    let same : w ≡ u = some-injective e in ground (arith, same, a, b, c)

-- As long as no more errors came than a gate has room for, and none before an earlier one, an error that
-- was written is not written again until the freshness is over.
written-should_write :
    (reports : List Report) (freshness capacity : ℕ) (id : ℤ) (code_line : String) (t now : ℕ)
    → IsOrdered reports
    → length reports ≤ max capacity 1
    → Memᴰ ((id, code_line), t) (written reports (new freshness capacity))
    → t ≤ now
    → now < t + freshness
    → (should_write id code_line now (after reports (new freshness capacity))).1 ≡ false
written-should_write reports freshness capacity id code_line t now ordered h m a b =
    let start = new freshness capacity in
    let gate = after reports start in
    let (u, found, later) =
      written_known reports freshness capacity (id, code_line) t ordered h m in
    let recent =
      recent_found (get same_error (id, code_line) gate.last_written) gate.freshness now t u found
        later a (omega (arith, b, (freshness-after reports start).0)) in
    ap (λ r. r.1) (should_write-recent ((id, code_line), now) gate recent)

-- As long as no more errors came than a gate has room for, and none before an earlier one, an error is
-- kept back exactly where the same error was written less than the freshness before.
pub should_write_iff :
    (reports : List Report) (freshness capacity : ℕ) (id : ℤ) (code_line : String) (now : ℕ)
    → IsOrdered (((id, code_line), now) ∷ reports)
    → length reports ≤ max capacity 1
    → ((should_write id code_line now (after reports (new freshness capacity))).1 ≡ false) ↔ (
        (t : ℕ) × Memᴰ ((id, code_line), t) (written reports (new freshness capacity))
        × (now < t + freshness))
should_write_iff reports freshness capacity id code_line now (latest, ordered) h = (
  should_write-written reports freshness capacity id code_line now,
  λ (t, m, early).
      written-should_write reports freshness capacity id code_line t now ordered h m
        (written-le reports (new freshness capacity) (id, code_line) t now latest m) early,
)
