-- ===== src/Reqlog/Errors/Freshness.antt =====
-- src/reqlog/errors.rs: an error that is kept back was written a short while ago.
use fareward.Common.{
  ℕ, ◌+◌, ◌<◌, ◌≡◌, refl, sym, ap, ◌∙◌, subst, inl, inr, true, false, not, Option, none, some, List,
  [], ◌∷◌, if◌then◌else◌, Option-cases, if_elim, some-injective, arith,
}
use fareward.Common.Int.{ℤ}
use fareward.Common.KeyMap.{
  get, put, keep_if, get-put_self, get-put_ne, get-keep_if_kept, get-keep_if_dropped,
}
use fareward.Reqlog.Errors.{
  ErrorKey, same_error, ErrorWriteGate, oldest, evict_oldest, is_recent, should_write, new,
}
use fareward.Reqlog.Errors.Ceiling.{same_error_sound, same_error_self}
use mathlib.Core.List.{Memᴰ}
use mathlib.Core.List.Memᴰ.{head, tail}
use Prim.Native.String.{String}
use fareward.Reqlog.Errors.History.{
  Report, after, written, same_error-cases, entries_left, answer_elim, same_error_apart,
  freshness-after,
}

get-evict_oldest :
    (key : ErrorKey) (m : List (ErrorKey × ℕ)) (t : ℕ)
    → get same_error key (evict_oldest m) ≡ some t
    → get same_error key m ≡ some t
unfolding evict_oldest
get-evict_oldest key m t h = elim (Option-cases (oldest m)) [
  | inl nothing ↦ (rw (evict_oldest, nothing) at h)
  | inr (entry, found) ↦
      let left : get same_error key (keep_if same_error (λ k _. not (same_error k entry.0)) m)
          ≡ some t =
        rw (evict_oldest, found) at h in
      elim (same_error-cases entry.0 key) [
        | inl same ↦ cc (
          left,
          get-keep_if_dropped same_error (λ k _. not (same_error k entry.0)) key m
              (λ j w its. subst (λ e. not (same_error j e) ≡ false) (sym same) (ap not its)),
        )
        | inr apart ↦
            sym (
              get-keep_if_kept same_error (λ k _. not (same_error k entry.0)) key m
                (λ j w its.
                  subst (λ k. not (same_error k entry.0) ≡ true) (sym (same_error_sound j key its))
                    (ap not (same_error_apart entry.0 key apart))))
            ∙ left
      ]
]

get-entries_left :
    (report : Report) (gate : ErrorWriteGate) (key : ErrorKey) (t : ℕ)
    → get same_error key (entries_left report gate) ≡ some t
    → get same_error key gate.last_written ≡ some t
get-entries_left report gate key t =
    if_elim (λ m. get same_error key m ≡ some t → get same_error key gate.last_written ≡ some t) _
      (get-evict_oldest key gate.last_written t) (λ h. h)

pair_eq :
    (key : ErrorKey) (t : ℕ) (report : Report) → report.0 ≡ key → t ≡ report.1 → (key, t) ≡ report
pair_eq key t report same at = ap (λ k. (k, t)) (sym same) ∙ ap (λ u. (report.0, u)) at

-- What the gate knows of an error is a time at which it was written.
known_written :
    (reports : List Report) (freshness capacity : ℕ) (key : ErrorKey) (t : ℕ)
    → get same_error key (after reports (new freshness capacity)).last_written ≡ some t
    → Memᴰ (key, t) (written reports (new freshness capacity))
unfolding after written get
known_written [] freshness capacity key t = λ h. absurd (ground (arith, h))
known_written (report ∷ earlier) freshness capacity key t =
    let start = new freshness capacity in
    let gate = after earlier start in
    let rest = written earlier start in
    answer_elim
      (λ a.
        get same_error key a.0.last_written ≡ some t
        → Memᴰ (key, t) (if a.1 then report ∷ rest else rest))
      report gate (λ recent h. known_written earlier freshness capacity key t h)
      (λ h. elim (same_error-cases report.0 key) [
        | inl same ↦
            let put_here =
              get-put_self same_error same_error_sound same_error_self report.0 report.1
                (entries_left report gate) in
            let at : t ≡ report.1 = some-injective (
              sym (
                subst
                  (λ k.
                    get same_error k (put same_error report.0 report.1 (entries_left report gate))
                    ≡ some t)
                  (sym same) h)
              ∙ put_here) in
            head (pair_eq key t report same at)
        | inr apart ↦ tail (
            known_written earlier freshness capacity key t (
              get-entries_left report gate key t (
                sym (
                  get-put_ne same_error same_error_sound same_error_self report.0 key report.1
                    (entries_left report gate) apart)
                ∙ h)))
      ])

recent_time :
    (found : Option ℕ) (freshness now : ℕ)
    → is_recent found freshness now ≡ true
    → (t : ℕ) × (found ≡ some t) × (now < t + freshness)
recent_time none freshness now h = absurd (ground (arith, h))
recent_time (some t) freshness now h = (t, refl, ground (arith, h))

-- An error that is not written was written less than the freshness before, whatever errors came since
-- the gate was made and however many it forgot: none is kept back for longer.
pub should_write-written :
    (reports : List Report) (freshness capacity : ℕ) (id : ℤ) (code_line : String) (now : ℕ)
    → (should_write id code_line now (after reports (new freshness capacity))).1 ≡ false
    → (t : ℕ) × Memᴰ ((id, code_line), t) (written reports (new freshness capacity))
      × (now < t + freshness)
should_write-written reports freshness capacity id code_line now =
    let gate = after reports (new freshness capacity) in
    answer_elim
      (λ a.
        a.1 ≡ false
        → (t : ℕ) × Memᴰ ((id, code_line), t) (written reports (new freshness capacity))
          × (now < t + freshness))
      ((id, code_line), now) gate
      (λ recent h.
        let (t, found, early) = recent_time _ gate.freshness now recent in
        (
          t,
          known_written reports freshness capacity (id, code_line) t found,
          omega (arith, early, (freshness-after reports (new freshness capacity)).0),
        ))
      (λ h. absurd (ground (arith, h)))
