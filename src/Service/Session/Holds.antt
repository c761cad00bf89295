-- ===== src/Service/Session/Holds.antt =====
-- src/service/server.rs: how a connection may lose a lock that it holds.
use fareward.Common.{
  if_elim, ℕ, ◌+◌, ◌^◌, ◌≤◌, ◌≡◌, refl, sym, ap, ◌∙◌, subst, ◌⊎◌, inl, inr, true, false, Option,
  none, some, List, [], ◌∷◌, ◌++◌, ltb, get_elem?, arith, Bool-cases, Option-cases, some-injective,
  ==_iff,
}
use fareward.Common.KeyMap.{get, get-put_ne, get-take_out_ne, get-keep_if_found}
use fareward.Common.Result.{ok}
use fareward.Lock.Registry.{LockKey, key_eq, key_eq_sound, key_eq_same}
use fareward.Lock.Protocol.{ReleaseRequest, parse_release}
use fareward.Service.Connection.{
  Connection, Flow, go_on, has_permit, return_permit, take_permit, send, spawn, spawn_or, is_alive,
  drop_expired, keep_granted, take_report, release,
}
use fareward.Service.Auth.{verify_hash}
use fareward.Service.Frame.{
  authenticated, Frame, FrameRead, stream_end, refused, complete, read_frame,
}
use fareward.Service.Jobs.{
  HeldLock, AcquireOutcome, Services, Pool, general, sequences, pool_of, Job, invalidating,
  move_job,
}
use fareward.Service.Opcode.{Opcode, lock_release}
use fareward.Service.Reader.{
  Setup, Selected, shutdown, timed_out, read_failed, reported, arrived, dispatch, is_authentic,
  serve_frame, serve_read, select, close_broken, round,
}
use fareward.Service.Session.{Event, reader, handler, free_permit, settle, advance, step}
use fareward.Service.Session.Branches.{held_elim, release_elim, dispatch_elim}

-- A payload that releases the hold of a key.
pub record Names (u : Setup) (k : LockKey) (lock : HeldLock) (payload : List ℕ) : Type 0 where
  pub request : ReleaseRequest
  pub parsed : parse_release u.codecs.release payload ≡ ok request
  pub its_key : (request.action, request.identifier) ≡ k
  pub its_generation : request.generation ≡ lock.generation

-- The lease ended, a new grant of the key came from the registry, or an authentic frame released it.
pub data MayEnd (u : Setup) (k : LockKey) (lock : HeldLock) : Event → Connection → Type 0 where
  expired :
      {now : ℕ} {selected : Selected} {c : Connection}
      → lock.expires_at ≤ now
      → MayEnd u k lock (reader now selected) c
  replaced :
      {now : ℕ} {c : Connection} {outcome : AcquireOutcome} {reports : List AcquireOutcome}
      {new : HeldLock}
      → c.reports ≡ outcome ∷ reports
      → outcome.key ≡ k
      → outcome.granted ≡ some new
      → MayEnd u k lock (reader now reported) c
  freed :
      {now : ℕ} {bytes : List ℕ} {c : Connection} {f : Frame} {rest : List ℕ}
      → read_frame bytes ≡ complete f rest
      → is_authentic u f c ≡ true
      → f.opcode ≡ lock_release
      → Names u k lock f.payload
      → MayEnd u k lock (reader now (arrived bytes)) c

List-cases :
    (xs : List AcquireOutcome)
    → (xs ≡ []) ⊎ ((y : AcquireOutcome) × (ys : List AcquireOutcome) × (xs ≡ y ∷ ys))
List-cases [] = inl refl
List-cases (y ∷ ys) = inr (y, ys, refl)

module _ (k : LockKey) (lock : HeldLock) where
  abbrev pub Holds : Connection → Type 0
  Holds c = get key_eq k c.held ≡ some lock

  Holds-drop_expired :
      (now : ℕ) (c : Connection) → Holds c → (Holds (drop_expired now c)) ⊎ (lock.expires_at ≤ now)
  unfolding drop_expired
  Holds-drop_expired now c h = elim (Bool-cases (ltb now lock.expires_at)) [
    | inl alive ↦ inl (get-keep_if_found key_eq (is_alive now) k lock c.held h (λ j. alive))
    | inr over ↦ inr (ground (arith, over))
  ]

  Holds-keep_granted :
      (outcome : AcquireOutcome) (c : Connection)
      → Holds c
      → (Holds (keep_granted outcome c))
        ⊎ ((outcome.key ≡ k) × ((new : HeldLock) × (outcome.granted ≡ some new)))
  unfolding keep_granted
  Holds-keep_granted outcome c h =
      elim outcome.granted
        as (λ granted.
          (Holds (keep_granted (record outcome { granted = granted }) c))
          ⊎ ((outcome.key ≡ k) × ((new : HeldLock) × (granted ≡ some new)))) [
            | none ↦ inl h
            | some new ↦ elim (Bool-cases (key_eq outcome.key k)) [
              | inl its ↦ inr (key_eq_sound outcome.key k its, (new, refl))
              | inr ne ↦
                  inl (get-put_ne key_eq key_eq_sound key_eq_same outcome.key k new c.held ne ∙ h)
            ]
          ]

  Holds-release :
      (u : Setup) (payload : List ℕ) (n : ℕ) (request : ReleaseRequest) (c : Connection)
      → Holds c
      → parse_release u.codecs.release payload ≡ ok request
      → (Holds (release n request c)) ⊎ Names u k lock payload
  unfolding send
  Holds-release u payload n request c h e =
      release_elim (λ d. (Holds d) ⊎ Names u k lock payload) n request c (inl h)
        (λ other found same. elim (Bool-cases (key_eq (request.action, request.identifier) k)) [
          | inl its ↦
              let key = key_eq_sound (request.action, request.identifier) k its in
              let twice : some other ≡ some lock =
                sym found ∙ ap (λ j. get key_eq j c.held) key ∙ h in
              inr (record {
                request = request;
                parsed = e;
                its_key = key;
                its_generation =
                    sym ((==_iff other.generation request.generation).0 same)
                    ∙ ap (λ l. l.generation) (some-injective twice);
              })
          | inr ne ↦ inl (
              get-take_out_ne key_eq key_eq_sound key_eq_same (request.action, request.identifier) k
                c.held ne
              ∙ h)
        ])

  Holds-take_permit : (pool : Pool) (c : Connection) → Holds c → Holds (take_permit pool c)
  Holds-take_permit general c h = h
  Holds-take_permit sequences c h = h

  Holds-return_permit : (pool : Pool) (c : Connection) → Holds c → Holds (return_permit pool c)
  Holds-return_permit general c h = h
  Holds-return_permit sequences c h = h

  Holds-free_permit :
      (job : Job) (next : Option Job) (c : Connection) → Holds c → Holds (free_permit job next c)
  Holds-free_permit job none c h = Holds-return_permit (pool_of job) c h
  Holds-free_permit job (some next) c h = h

  Holds-spawn : (job : Job) (c : Connection) → Holds c → Holds (spawn job c)
  unfolding spawn
  Holds-spawn job c h =
      Holds-take_permit (pool_of job) (record c { handlers = c.handlers ++ job ∷ [] }) h

  Holds-advance :
      (services : Services) (now i : ℕ) (c : Connection)
      → Holds c
      → Holds (advance services now i c)
  unfolding advance settle
  Holds-advance services now i c h = elim (Option-cases (get_elem? c.handlers i)) [
    | inl missing ↦ rw (advance, missing) h
    | inr (job, found) ↦
        rw (advance, found) (Holds-free_permit job (move_job services now job).next _ h)
  ]

  -- A branch that keeps the hold, ends the connection, or frees the hold as it may.
  abbrev Spared : Type 0 → Flow → Type 0
  Spared Freed s = (Holds s.0) ⊎ (s.1 ≡ false) ⊎ Freed

  Holds-dispatch :
      (u : Setup) (opcode : Opcode) (payload : List ℕ) (n : ℕ) (c : Connection)
      → Holds c
      → Spared ((opcode ≡ lock_release) × Names u k lock payload) (dispatch u opcode payload n c)
  unfolding send spawn_or
  Holds-dispatch u opcode payload n c h =
      dispatch_elim (λ o. Spared ((o ≡ lock_release) × Names u k lock payload)) u payload n c
        (λ o. inr (inl refl)) (λ o e. inl h)
        (λ o job fallback e f g.
          inl (if_elim Holds (has_permit (pool_of job) c) (Holds-spawn job c h) h))
        (λ o e. inl h)
        (λ request e. elim (Holds-release u payload n request c h e) [
          | inl spared ↦ inl spared
          | inr names ↦ inr (inr (refl, names))
        ])
        (λ logs. inl h) (λ i. inl (Holds-spawn (invalidating i) c h)) opcode

  abbrev Released : Setup → Frame → Connection → Type 0
  Released u f c =
      (is_authentic u f c ≡ true) × (f.opcode ≡ lock_release) × Names u k lock f.payload

  Holds-serve_frame :
      (u : Setup) (f : Frame) (c : Connection)
      → Holds c
      → Spared (Released u f c) (serve_frame u f c)
  unfolding serve_frame
  Holds-serve_frame u f c h = elim (Bool-cases (is_authentic u f c)) [
    | inr fake ↦ rw (serve_frame, fake) (inr (inl refl))
    | inl authentic ↦ elim (Bool-cases (ltb (c.sequence + 1) (2 ^ 64))) [
      | inr full ↦ rw (serve_frame, authentic, full) (inr (inl refl))
      | inl room ↦
          rw (serve_frame, authentic, room)
            (elim (Holds-dispatch u f.opcode f.payload c.sequence
              (record c { sequence = c.sequence + 1 }) h) [
                | inl spared ↦ inl spared
                | inr (inl ended) ↦ inr (inl ended)
                | inr (inr (opcode, names)) ↦ inr (inr (refl, opcode, names))
              ])
    ]
  ]

  Holds-serve_read :
      (u : Setup) (now : ℕ) (bytes : List ℕ) (r : FrameRead) (c d : Connection)
      → read_frame bytes ≡ r
      → d.sequence ≡ c.sequence
      → Holds d
      → Spared (MayEnd u k lock (reader now (arrived bytes)) c) (serve_read u r d)
  unfolding serve_read is_authentic
  Holds-serve_read u now bytes stream_end c d e same h = inr (inl refl)
  Holds-serve_read u now bytes (refused failure) c d e same h = inr (inl refl)
  Holds-serve_read u now bytes (complete f rest) c d e same h = elim (Holds-serve_frame u f d h) [
    | inl spared ↦ inl spared
    | inr (inl ended) ↦ inr (inl ended)
    | inr (inr (authentic, opcode, names)) ↦ inr (
        inr (
          freed e
            (subst
              (λ n. verify_hash u.sha256 u.secret u.nonce n (authenticated f) f.received_tag ≡ true)
              same authentic)
            opcode names))
  ]

  Holds-take_report :
      (u : Setup) (now : ℕ) (c d : Connection)
      → d.reports ≡ c.reports
      → Holds d
      → Spared (MayEnd u k lock (reader now reported) c) (go_on (take_report d))
  unfolding take_report
  Holds-take_report u now c d same h = elim (List-cases d.reports) [
    | inl none_there ↦ inl (rw (take_report, none_there) h)
    | inr (outcome, reports, there) ↦
        rw (take_report, there)
          (elim (Holds-keep_granted outcome (record d { reports = reports }) h) [
            | inl spared ↦ inl spared
            | inr (same_key, (new, its)) ↦ inr (inr (replaced (sym same ∙ there) same_key its))
          ])
  ]

  Holds-select :
      (u : Setup) (now : ℕ) (selected : Selected) (c d : Connection)
      → d.sequence ≡ c.sequence
      → d.reports ≡ c.reports
      → Holds d
      → Spared (MayEnd u k lock (reader now selected) c) (select u selected d)
  unfolding select
  Holds-select u now shutdown c d same same_reports h = inr (inl refl)
  Holds-select u now read_failed c d same same_reports h = inr (inl refl)
  Holds-select u now timed_out c d same same_reports h =
      held_elim (Spared (MayEnd u k lock (reader now timed_out) c)) d.held (inr (inl refl)) (inl h)
  Holds-select u now reported c d same same_reports h = Holds-take_report u now c d same_reports h
  Holds-select u now (arrived bytes) c d same same_reports h =
      Holds-serve_read u now bytes (read_frame bytes) c d refl same h

  Spared-close_broken : (Freed : Type 0) (s : Flow) → Spared Freed s → Spared Freed (close_broken s)
  Spared-close_broken Freed (c, true) h = h
  Spared-close_broken Freed (c, false) h = inr (inl refl)

  -- A lock that an open connection holds is held after the next step, unless the connection ends, the
  -- lease of the lock is over, a new grant of its key came from the registry, or an authentic frame
  -- released its key with its generation.
  pub step-Holds :
      (u : Setup) (event : Event) (c : Connection)
      → Holds c
      → (Holds (step u event (c, true)).0)
        ⊎ ((step u event (c, true)).1 ≡ false)
        ⊎ MayEnd u k lock event c
  unfolding step round drop_expired
  step-Holds u (handler services now i) c h = inl (Holds-advance services now i c h)
  step-Holds u (reader now selected) c h = elim (Holds-drop_expired now c h) [
    | inr over ↦ inr (inr (expired over))
    | inl alive ↦
        Spared-close_broken (MayEnd u k lock (reader now selected) c)
          (select u selected (drop_expired now c))
          (Holds-select u now selected c (drop_expired now c) refl refl alive)
  ]
