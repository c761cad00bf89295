-- ===== src/Service/Session/Kept.antt =====
-- src/service/server.rs: a step of the reader neither makes nor loses a guard.
use fareward.Common.{
  if_elim, times, times-append, ℕ, ◌+◌, ◌^◌, ltb, ◌≡◌, refl, ◌∙◌, ◌⊎◌, inl, inr, true, false,
  Option, none, some, List, [], ◌∷◌, ◌++◌, arith, Option-cases,
}
use fareward.Common.KeyMap.{times-put, times-take_out, get, keep_if}
use fareward.Lock.Registry.{LockKey, key_eq}
use fareward.Lock.Protocol.{ReleaseRequest}
use fareward.Service.Connection.{
  Connection, Flow, guards_of, guard_list, reported_guards, is_alive, is_expired, send, spawn,
  spawn_or, drop_expired, keep_granted, take_report, release, close,
}
use fareward.Service.Frame.{Frame, FrameRead, stream_end, refused, complete, read_frame}
use fareward.Service.Jobs.{HeldLock, AcquireOutcome, Job, invalidating}
use fareward.Service.Opcode.{Opcode}
use fareward.Service.Reader.{
  Setup, Selected, shutdown, timed_out, read_failed, reported, arrived, dispatch, is_authentic,
  serve_frame, serve_read, select, close_broken, round,
}
use fareward.Service.Reply.{Reply}
use fareward.Service.Session.Branches.{held_elim, dispatch_elim}

-- What is held, what is on the way to the reader, and what was dropped.
unfoldable pub kept : ℕ → Connection → ℕ
unfolding times reported_guards
kept g c = times g (guards_of c.held) + times g (reported_guards c.reports) + times g c.dropped

module _ (g : ℕ) where
  times-keep_if :
      (now : ℕ) (m : List (LockKey × HeldLock))
      → times g (guards_of (keep_if key_eq (is_alive now) m))
          + times g (guards_of (keep_if key_eq (is_expired now) m))
        ≡ times g (guards_of m)
  unfolding times keep_if
  times-keep_if now [] = omega arith
  times-keep_if now ((j, other) ∷ m) = ground (arith, times-keep_if now m)

  pub times-reported_guards :
      (xs ys : List AcquireOutcome)
      → times g (reported_guards (xs ++ ys))
        ≡ times g (reported_guards xs) + times g (reported_guards ys)
  unfolding times reported_guards
  times-reported_guards [] ys = omega arith
  times-reported_guards (x ∷ xs) ys = ground (
    arith,
    times-reported_guards xs ys,
    times-append g (guard_list x.granted) (reported_guards (xs ++ ys)),
    times-append g (guard_list x.granted) (reported_guards xs),
  )

  kept-drop_expired : (now : ℕ) (c : Connection) → kept g (drop_expired now c) ≡ kept g c
  unfolding kept drop_expired
  kept-drop_expired now c = omega (
    arith,
    times-keep_if now c.held,
    times-append g c.dropped (guards_of (keep_if key_eq (is_expired now) c.held)),
  )

  kept-keep_granted :
      (key : LockKey) (granted : Option HeldLock) (c : Connection)
      → kept g (keep_granted (record { key = key; granted = granted }) c)
        ≡ kept g c + times g (guard_list granted)
  unfolding kept keep_granted times
  kept-keep_granted key none c = ground arith
  kept-keep_granted key (some lock) c = ground (
    arith,
    times-put key_eq (λ l. l.guard) g key lock c.held,
    times-append g c.dropped (guard_list (get key_eq key c.held)),
  )

  kept-take_report : (c : Connection) → kept g (take_report c) ≡ kept g c
  unfolding take_report
  kept-take_report c =
      elim c.reports
        as (λ reports.
          kept g (take_report (record c { reports = reports }))
          ≡ kept g (record c { reports = reports })) [
            | [] ↦ refl
            | outcome ∷ reports ↦
                kept-keep_granted outcome.key outcome.granted (record c { reports = reports })
                ∙ unfold kept times reported_guards in
                  ground
                    (arith, times-append g (guard_list outcome.granted) (reported_guards reports))
          ]

  kept-release :
      (n : ℕ) (request : ReleaseRequest) (c : Connection) → kept g (release n request c) ≡ kept g c
  unfolding kept release send times
  kept-release n request c =
      let key : LockKey = (request.action, request.identifier) in
      elim (Option-cases (get key_eq key c.held)) [
        | inl missing ↦ ground (arith, missing)
        | inr (lock, found) ↦ ground (
          arith,
          found,
          times-take_out key_eq (λ l. l.guard) g key c.held,
          times-append g c.dropped (lock.guard ∷ []),
        )
      ]

  kept-close : (c : Connection) → kept g (close c) ≡ kept g c
  unfolding kept close times reported_guards
  kept-close c = omega (
    arith,
    times-append g (c.dropped ++ guards_of c.held) (reported_guards c.reports),
    times-append g c.dropped (guards_of c.held),
  )

  kept-spawn_or :
      (n : ℕ) (fallback : Reply) (job : Job) (c : Connection)
      → kept g (spawn_or n fallback job c) ≡ kept g c
  unfolding kept spawn_or spawn send
  kept-spawn_or n fallback job c = ground arith

  kept-spawn : (job : Job) (c : Connection) → kept g (spawn job c) ≡ kept g c
  unfolding kept spawn
  kept-spawn job c = ground arith

  abbrev Same : Connection → Flow → Type 0
  Same c s = kept g s.0 ≡ kept g c

  kept-dispatch :
      (u : Setup) (opcode : Opcode) (payload : List ℕ) (n : ℕ) (c : Connection)
      → Same c (dispatch u opcode payload n c)
  unfolding kept send
  kept-dispatch u opcode payload n c =
      dispatch_elim (λ o. Same c) u payload n c (λ o. refl) (λ o e. refl)
        (λ o job fallback e owed push. kept-spawn_or n fallback job c) (λ o e. refl)
        (λ request e. kept-release n request c) (λ logs. refl) (λ i. kept-spawn (invalidating i) c)
        opcode

  kept-serve_frame : (u : Setup) (f : Frame) (c : Connection) → Same c (serve_frame u f c)
  unfolding serve_frame kept
  kept-serve_frame u f c =
      if_elim (Same c) (is_authentic u f c)
        (if_elim (Same c) (ltb (c.sequence + 1) (2 ^ 64))
          (kept-dispatch u f.opcode f.payload c.sequence (record c { sequence = c.sequence + 1 }))
          refl)
        refl

  kept-serve_read : (u : Setup) (r : FrameRead) (c : Connection) → Same c (serve_read u r c)
  unfolding serve_read
  kept-serve_read u stream_end c = refl
  kept-serve_read u (refused e) c = refl
  kept-serve_read u (complete f rest) c = kept-serve_frame u f c

  kept-select : (u : Setup) (selected : Selected) (c : Connection) → Same c (select u selected c)
  unfolding select
  kept-select u shutdown c = refl
  kept-select u reported c = kept-take_report c
  kept-select u timed_out c = held_elim (Same c) c.held refl refl
  kept-select u read_failed c = refl
  kept-select u (arrived bytes) c = kept-serve_read u (read_frame bytes) c

  kept-close_broken : (s : Flow) → kept g (close_broken s).0 ≡ kept g s.0
  kept-close_broken (c, true) = refl
  kept-close_broken (c, false) = kept-close c

  pub closed_close_broken :
      (s : Flow)
      → ((close_broken s).1 ≡ true)
        ⊎ (kept g (close_broken s).0 ≡ times g (close_broken s).0.dropped)
  unfolding kept close times reported_guards
  closed_close_broken (c, true) = inl refl
  closed_close_broken (c, false) = inr (omega arith)

  pub kept-round :
      (u : Setup) (now : ℕ) (selected : Selected) (c : Connection) → Same c (round u now selected c)
  unfolding round
  kept-round u now selected c =
      kept-close_broken (select u selected (drop_expired now c))
      ∙ kept-select u selected (drop_expired now c)
      ∙ kept-drop_expired now c
