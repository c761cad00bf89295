-- ===== src/Limiter/Usage/Flush.antt =====
-- src/limiter/aggregation.rs: no charge is lost between a row in memory and its row in the database.
use fareward.Common.{
  ℕ, ◌+◌, ◌≤◌, ◌<◌, ◌≡◌, refl, sym, ◌∙◌, ◌≢◌, ◌⊎◌, inl, inr, subst, Bool, true, some, arith, ==_iff,
  if◌then◌else◌,
}
use fareward.Limiter.Credits.{Credits, RoutedCredits, u64_max}
use fareward.Limiter.Usage.{
  UsageKey, UsageRecord, UsageSnapshot, increment, snapshot, mark_flushed, is_clean, loaded,
}

-- How far a flush has come.
pub data Phase : Type 0 where
  idle : Phase
  taken written : UsageSnapshot → Phase

pub record Row : Type 0 where
  pub memory : UsageRecord
  pub stored : RoutedCredits
  pub phase : Phase

-- Charges come at any time, beside the steps of a flush: the snapshot, the write, which may fail
-- with or without having been applied, and the mark.
pub data Step : Row → Row → Type 0 where
  charged :
      (u : UsageRecord) (stored : RoutedCredits) (phase : Phase) (route : ℕ) (credits : Credits)
      → u.version < u64_max
      → Step
          (record { memory = u; stored = stored; phase = phase })
          (record { memory = (increment route credits u).0; stored = stored; phase = phase })
  took :
      (u : UsageRecord) (stored : RoutedCredits) (key : UsageKey) (s : UsageSnapshot)
      → snapshot key u ≡ some s
      → Step
          (record { memory = u; stored = stored; phase = idle })
          (record { memory = u; stored = stored; phase = taken s })
  wrote :
      (u : UsageRecord) (stored : RoutedCredits) (s : UsageSnapshot)
      → Step
          (record { memory = u; stored = stored; phase = taken s })
          (record { memory = u; stored = s.routes; phase = written s })
  failed :
      (u : UsageRecord) (stored : RoutedCredits) (s : UsageSnapshot) (applied : Bool)
      → Step
          (record { memory = u; stored = stored; phase = taken s })
          (record { memory = u; stored = if applied then s.routes else stored; phase = idle })
  marked :
      (u : UsageRecord) (stored : RoutedCredits) (s : UsageSnapshot)
      → Step
          (record { memory = u; stored = stored; phase = written s })
          (record { memory = mark_flushed s.version u; stored = stored; phase = idle })

pub data Steps : Row → Row → Type 0 where
  none_more : (row : Row) → Steps row row
  continued : {first next last : Row} → Step first next → Steps next last → Steps first last

-- A snapshot is of the row in memory or of an earlier version of it, and not flushed yet.
abbrev IsBehind : UsageSnapshot → UsageRecord → Type 0
IsBehind s u =
    (u.flushed_version < s.version)
    × (s.version ≤ u.version)
    × (s.version ≡ u.version → s.routes ≡ u.routes)

abbrev Tracks : UsageRecord → RoutedCredits → Phase → Type 0
Tracks u stored idle =
    (u.flushed_version ≤ u.version) × (u.version ≡ u.flushed_version → stored ≡ u.routes)
Tracks u stored (taken s) = IsBehind s u
Tracks u stored (written s) = IsBehind s u × (stored ≡ s.routes)

-- A charge leaves the row as it is, or gives it a version of its own.
increment-cases :
    (route : ℕ) (credits : Credits) (u : UsageRecord)
    → u.version < u64_max
    → let u' = (increment route credits u).0 in
      (u'.flushed_version ≡ u.flushed_version) × ((u' ≡ u) ⊎ (u'.version ≡ u.version + 1))
unfolding increment
increment-cases route credits u h = ground arith

increment-Tracks :
    (route : ℕ) (credits : Credits) (u : UsageRecord) (stored : RoutedCredits) (phase : Phase)
    → u.version < u64_max
    → Tracks u stored phase
    → Tracks (increment route credits u).0 stored phase
increment-Tracks route credits u stored phase h t = elim (increment-cases route credits u h).1 [
  | inl same ↦ subst (λ v. Tracks v stored phase) (sym same) t
  | inr more ↦ newer phase t (increment-cases route credits u h).0 more
]
  where
    newer :
        (phase : Phase)
        → Tracks u stored phase
        → (increment route credits u).0.flushed_version ≡ u.flushed_version
        → (increment route credits u).0.version ≡ u.version + 1
        → Tracks (increment route credits u).0 stored phase
    newer idle t f v = (omega (arith, f, v, t.0), λ e. absurd (omega (arith, f, v, t.0, e)))
    newer (taken s) t f v =
        (omega (arith, f, t.0), omega (arith, v, t.1), λ e. absurd (omega (arith, v, t.1, e)))
    newer (written s) t f v = (
      (omega (arith, f, t.0.0), omega (arith, v, t.0.1), λ e. absurd (omega (arith, v, t.0.1, e))),
      t.1,
    )

snapshot-some :
    (key : UsageKey) (u : UsageRecord) (s : UsageSnapshot)
    → snapshot key u ≡ some s
    → (s.version ≡ u.version) × (s.routes ≡ u.routes) × (u.version ≢ u.flushed_version)
unfolding snapshot
snapshot-some key u s h = ground arith

snapshot-IsBehind :
    (u : UsageRecord) (stored : RoutedCredits) (key : UsageKey) (s : UsageSnapshot)
    → Tracks u stored idle
    → snapshot key u ≡ some s
    → IsBehind s u
snapshot-IsBehind u stored key s t h =
    let (version, routes, dirty) = snapshot-some key u s h in
    (omega (arith, version, t.0, dirty), omega (arith, version), λ e. routes)

mark_flushed-cases :
    (version : ℕ) (u : UsageRecord)
    → ((u.version ≡ version) × (mark_flushed version u ≡ record u { flushed_version = version }))
      ⊎ ((u.version ≢ version) × (mark_flushed version u ≡ u))
unfolding mark_flushed
mark_flushed-cases version u = ground arith

mark_flushed-Tracks :
    (u : UsageRecord) (stored : RoutedCredits) (s : UsageSnapshot)
    → Tracks u stored (written s)
    → Tracks (mark_flushed s.version u) stored idle
mark_flushed-Tracks u stored s ((behind, at, current), same) =
    elim (mark_flushed-cases s.version u) [
      | inl (e, m) ↦ subst (λ v. Tracks v stored idle) (sym m) (at, λ _. same ∙ current (sym e))
      | inr (n, m) ↦
          subst (λ v. Tracks v stored idle) (sym m)
            (omega (arith, behind, at), λ e. absurd (omega (arith, behind, at, e)))
    ]

Step-Tracks :
    {first next : Row}
    → Step first next
    → Tracks first.memory first.stored first.phase
    → Tracks next.memory next.stored next.phase
Step-Tracks (charged u stored phase route credits h) t =
    increment-Tracks route credits u stored phase h t
Step-Tracks (took u stored key s h) t = snapshot-IsBehind u stored key s t h
Step-Tracks (wrote u stored s) t = (t, refl)
Step-Tracks (failed u stored s applied) t =
    (omega (arith, t.0, t.1), λ e. absurd (omega (arith, t.0, t.1, e)))
Step-Tracks (marked u stored s) t = mark_flushed-Tracks u stored s t

Steps-Tracks :
    {first last : Row}
    → Steps first last
    → Tracks first.memory first.stored first.phase
    → Tracks last.memory last.stored last.phase
Steps-Tracks (none_more row) t = t
Steps-Tracks (continued step steps) t = Steps-Tracks steps (Step-Tracks step t)

abbrev pub recovered_row : RoutedCredits → Row
recovered_row routes = record { memory = loaded routes; stored = routes; phase = idle }

Tracks-stored :
    (u : UsageRecord) (stored : RoutedCredits) (phase : Phase)
    → Tracks u stored phase
    → u.version ≡ u.flushed_version
    → stored ≡ u.routes
Tracks-stored u stored idle t e = t.1 e
Tracks-stored u stored (taken s) t e = absurd (omega (arith, t.0, t.1, e))
Tracks-stored u stored (written s) t e = absurd (omega (arith, t.0.0, t.0.1, e))

-- Whatever charges come beside the steps of the flushes, and however a write fails, a row in memory
-- that counts as clean, and may be dropped, is the one in the database. The row starts as it was
-- loaded, and its version never stands at the last value of 64 bits when a charge comes.
pub is_clean-stored :
    (routes : RoutedCredits) (row : Row)
    → Steps (recovered_row routes) row
    → is_clean row.memory ≡ true
    → row.stored ≡ row.memory.routes
unfolding loaded
is_clean-stored routes row steps clean =
    Tracks-stored row.memory row.stored row.phase (Steps-Tracks steps (omega arith, λ e. refl))
      ((==_iff row.memory.version row.memory.flushed_version).0 clean)
