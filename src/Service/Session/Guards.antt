-- ===== src/Service/Session/Guards.antt =====
-- src/service/server.rs: where the guards of a connection are.
use fareward.Common.{
  times, times-append, ℕ, ◌+◌, ◌≡◌, refl, sym, ◌⊎◌, inl, inr, true, false, none, some, List, [],
  ◌∷◌, ◌++◌, get_elem?, arith, Option-cases,
}
use fareward.Common.Result.{ok, err, Result-cases}
use fareward.Reqlog.Sink.{RequestLogSink}
use fareward.Service.Connection.{Connection, Flow, guards_of, reported_guards, drop_expired}
use fareward.Service.Jobs.{
  Services, Job, acquiring, invalidating, Moved, move_job, acquire_reply, charging, mutating,
  reserving, setting, answering,
}
use fareward.Service.Reader.{Setup, select, round}
use fareward.Service.Session.{Event, reader, handler, opened, listed, settle, advance, step, run}
use fareward.Service.Session.Kept.{kept, times-reported_guards, kept-round, closed_close_broken}

-- The guards that the registry grants in an event, and in a history.
unfoldable pub grant_of : Services → Job → List ℕ
grant_of services (acquiring request lease sequence) = elim (services.acquire request) [
  | ok g ↦ g.guard ∷ []
  | err outcome ↦ []
]
grant_of services _ = []

unfoldable pub granted : Event → Flow → List ℕ
unfolding grant_of
granted (handler services now i) (c, true) = elim (get_elem? c.handlers i) [
  | none ↦ []
  | some job ↦ grant_of services job
]
granted event s = []

unfoldable pub granted_in : Setup → List Event → Flow → List ℕ
unfolding granted step
granted_in u [] s = []
granted_in u (event ∷ events) s = granted event s ++ granted_in u events (step u event s)

module _ (g : ℕ) where
  kept-settle :
      (i : ℕ) (job : Job) (moved : Moved) (c : Connection)
      → kept g (settle i job moved c) ≡ kept g c + times g (reported_guards (listed moved.report))
  unfolding kept settle
  kept-settle i job moved c =
      let more = times-reported_guards g c.reports (listed moved.report) in ground (arith, more)

  grant_of-move_job :
      (services : Services) (now : ℕ) (job : Job)
      → reported_guards (listed (move_job services now job).report) ≡ grant_of services job
  unfolding reported_guards move_job grant_of acquire_reply
  grant_of-move_job services now (acquiring request lease n) =
      elim (Result-cases (services.acquire request)) [
        | inl (lock, e) ↦ rw (grant_of, e) refl
        | inr (outcome, e) ↦ rw (grant_of, e) refl
      ]
  grant_of-move_job services now (charging request n) = refl
  grant_of-move_job services now (mutating mutation n) = refl
  grant_of-move_job services now (invalidating invalidation) = refl
  grant_of-move_job services now (reserving request n) = refl
  grant_of-move_job services now (setting request n) = refl
  grant_of-move_job services now (answering pool n reply) = refl

  kept-advance :
      (services : Services) (now i : ℕ) (c : Connection)
      → kept g (advance services now i c)
        ≡ kept g c + times g (granted (handler services now i) (c, true))
  unfolding advance granted times
  kept-advance services now i c = elim (Option-cases (get_elem? c.handlers i)) [
    | inl missing ↦ rw (advance, granted, missing) (omega arith)
    | inr (job, found) ↦
        rw (advance, granted, found, sym (grant_of-move_job services now job))
          (kept-settle i job (move_job services now job) c)
  ]

  kept-step :
      (u : Setup) (event : Event) (s : Flow)
      → kept g (step u event s).0 ≡ kept g s.0 + times g (granted event s)
  unfolding step granted times
  kept-step u (reader now selected) (c, true) = omega (arith, kept-round g u now selected c)
  kept-step u (handler services now i) (c, true) = kept-advance services now i c
  kept-step u (reader now selected) (c, false) = omega arith
  kept-step u (handler services now i) (c, false) = omega arith

  kept-run :
      (u : Setup) (events : List Event) (s : Flow)
      → kept g (run u events s).0 ≡ kept g s.0 + times g (granted_in u events s)
  unfolding run granted_in times
  kept-run u [] s = omega arith
  kept-run u (event ∷ events) s = omega (
    arith,
    kept-step u event s,
    kept-run u events (step u event s),
    times-append g (granted event s) (granted_in u events (step u event s)),
  )

  closed_step :
      (u : Setup) (event : Event) (s : Flow)
      → (s.1 ≡ true) ⊎ (kept g s.0 ≡ times g s.0.dropped)
      → ((step u event s).1 ≡ true)
        ⊎ (kept g (step u event s).0 ≡ times g (step u event s).0.dropped)
  unfolding step round
  closed_step u (reader now selected) (c, true) h =
      closed_close_broken g (select u selected (drop_expired now c))
  closed_step u (handler services now i) (c, true) h = inl refl
  closed_step u (reader now selected) (c, false) h = h
  closed_step u (handler services now i) (c, false) h = h

  closed_run :
      (u : Setup) (events : List Event) (s : Flow)
      → (s.1 ≡ true) ⊎ (kept g s.0 ≡ times g s.0.dropped)
      → ((run u events s).1 ≡ true)
        ⊎ (kept g (run u events s).0 ≡ times g (run u events s).0.dropped)
  unfolding run
  closed_run u [] s h = h
  closed_run u (event ∷ events) s h = closed_run u events (step u event s) (closed_step u event s h)

-- Whatever comes to a connection from its start, and in whatever order its handlers move, each guard
-- is held, reported to the reader or dropped as often in all as the registry granted it; and when
-- the connection has ended, it was dropped as often.
pub run_guards :
    (u : Setup) (logs : RequestLogSink) (max_inflight : ℕ) (events : List Event) (g : ℕ)
    → let s : Flow = run u events (opened logs max_inflight, true) in
      let all : List ℕ = granted_in u events (opened logs max_inflight, true) in
      (times g (guards_of s.0.held ++ reported_guards s.0.reports ++ s.0.dropped) ≡ times g all)
      × ((s.1 ≡ true) ⊎ (times g s.0.dropped ≡ times g all))
unfolding opened kept times reported_guards
run_guards u logs max_inflight events g =
    let start : Flow = (opened logs max_inflight, true) in
    let s : Flow = run u events start in
    let total = kept-run g u events start in
    let ended = closed_run g u events start (inl refl) in
    let first = times-append g (guards_of s.0.held ++ reported_guards s.0.reports) s.0.dropped in
    let second = times-append g (guards_of s.0.held) (reported_guards s.0.reports) in
    (
      omega (arith, total, first, second),
      elim ended [ inl going ↦ inl going | inr all ↦ inr (omega (arith, all, total)) ],
    )
