-- ===== src/Service/Session/Branches.antt =====
-- src/service/server.rs: what holds of every branch of the reader's decisions holds of the decision.
use fareward.Common.{
  if_elim, ℕ, ◌≡◌, refl, inl, inr, true, false, some, List, [], ◌∷◌, ◌++◌, ◌==◌, if◌then◌else◌,
  Option-cases, Bool-cases,
}
use fareward.Common.KeyMap.{get, take_out}
use fareward.Common.Result.{Result, ok, err, Result-cases}
use fareward.Limiter.Access.{AccessInvalidation, parse_access_invalidation}
use fareward.Limiter.Mutation.{parse_budget_mutation}
use fareward.Limiter.Protocol.{parse_charge}
use fareward.Lock.Registry.{key_eq, clamp_lease}
use fareward.Lock.Protocol.{
  ReleaseRequest, LockReply, lock_reply_code, lease, parse_acquire, parse_release,
}
use fareward.Reqlog.Record.{parse_request_log}
use fareward.Reqlog.Sink.{RequestLogSink, submit}
use fareward.Sequence.Protocol.{parse_reserve, parse_set}
use fareward.Service.Connection.{
  Connection, Flow, go_on, break, has_permit, send, spawn, spawn_or, release,
}
use fareward.Service.Jobs.{
  HeldLock, Job, charging, mutating, acquiring, invalidating, reserving, setting, answering,
  general,
}
use fareward.Service.Opcode.{
  Opcode, charge_credits, lock_acquire, lock_release, log_request, mutate_company_budget,
  invalidate_user_access, reserve_sequence, set_sequence, expects_reply,
}
use fareward.Service.Reader.{Setup, if_parsed, if_valid, dispatch}
use fareward.Service.Reply.{Reply, lock_refused, ack, sequence_invalid, unavailable, shape}
use fareward.Service.Shape.{is_push, shape_byte}

pub if_parsed_elim {ℓ} :
    {E A : Type 0} (P : Flow → Type ℓ) (r : Result E A) {c : Connection} {f : A → Connection}
    → P (break c)
    → ((a : A) → P (go_on (f a)))
    → P (if_parsed r c f)
unfolding if_parsed
if_parsed_elim P (ok a) p q = q a
if_parsed_elim P (err e) p q = p

pub if_valid_elim {ℓ} :
    {E A : Type 0} (P : Connection → Type ℓ) (r : Result E A) {c : Connection} {f : A → Connection}
    → P c
    → ((a : A) → P (f a))
    → P (if_valid r c f)
unfolding if_valid
if_valid_elim P (ok a) p q = q a
if_valid_elim P (err e) p q = p

pub held_elim {ℓ κ} :
    {A : Type ℓ} (P : Flow → Type κ) (held : List A) {s t : Flow}
    → P s
    → P t
    → P (elim held [ [] ↦ s | _ ∷ _ ↦ t ])
held_elim P [] p q = p
held_elim P (x ∷ xs) p q = q

-- The sequences that a handler is to answer; a push answers none.
abbrev pub owed_by : Job → List ℕ
owed_by (charging request n) = n ∷ []
owed_by (mutating mutation n) = n ∷ []
owed_by (acquiring request lease n) = n ∷ []
owed_by (invalidating invalidation) = []
owed_by (reserving request n) = n ∷ []
owed_by (setting request n) = n ∷ []
owed_by (answering pool n reply) = if is_push (shape reply) then [] else n ∷ []

-- A release is refused, or ends the hold of its key and generation.
pub release_elim {ℓ} :
    (P : Connection → Type ℓ) (n : ℕ) (request : ReleaseRequest) (c : Connection)
    → P (send n (lock_refused (lock_reply_code LockReply.misuse)) c)
    → ((lock : HeldLock)
        → get key_eq (request.action, request.identifier) c.held ≡ some lock
        → (lock.generation == request.generation) ≡ true
        → P (
            send n ack (record c {
              held = take_out key_eq (request.action, request.identifier) c.held;
              dropped = c.dropped ++ lock.guard ∷ [];
            })))
    → P (release n request c)
unfolding release
release_elim P n request c p q =
    elim (Option-cases (get key_eq (request.action, request.identifier) c.held)) [
      | inl missing ↦ rw (release, missing) p
      | inr (lock, found) ↦ elim (Bool-cases (lock.generation == request.generation)) [
        | inl same ↦ rw (release, found, same) (q lock found same)
        | inr other ↦ rw (release, found, other) p
      ]
    ]

-- What a frame with the sequence `n` may come to.
module _ {ℓ} (P : Opcode → Flow → Type ℓ) (u : Setup) (payload : List ℕ) (n : ℕ) (c : Connection)
    (broken : (o : Opcode) → P o (break c))
    (skipped : (o : Opcode) → expects_reply o ≡ false → P o (go_on c))
    (spawned : (o : Opcode) (job : Job) (fallback : Reply)
      → expects_reply o ≡ true
      → owed_by job ≡ n ∷ []
      → is_push (shape fallback) ≡ false
      → P o (go_on (spawn_or n fallback job c)))
    (malformed : (o : Opcode) → expects_reply o ≡ true → P o (go_on (send n sequence_invalid c)))
    (released : (request : ReleaseRequest)
      → parse_release u.codecs.release payload ≡ ok request
      → P lock_release (go_on (release n request c)))
    (logged : (logs : RequestLogSink) → P log_request (go_on (record c { logs = logs })))
    (invalidated : (i : AccessInvalidation)
      → P invalidate_user_access (go_on (spawn (invalidating i) c))) where
  pub dispatch_elim : (opcode : Opcode) → P opcode (dispatch u opcode payload n c)
  unfolding dispatch expects_reply is_push shape shape_byte if_parsed
  dispatch_elim charge_credits =
      if_parsed_elim (P charge_credits) (parse_charge u.codecs.charge payload)
        (broken charge_credits)
        (λ request. spawned charge_credits (charging request n) unavailable refl refl refl)
  dispatch_elim mutate_company_budget =
      if_parsed_elim (P mutate_company_budget)
        (parse_budget_mutation u.codecs.budget_mutation payload) (broken mutate_company_budget)
        (λ mutation. spawned mutate_company_budget (mutating mutation n) unavailable refl refl refl)
  dispatch_elim lock_acquire =
      if_parsed_elim (P lock_acquire) (parse_acquire u.codecs.acquire payload) (broken lock_acquire)
        (λ request.
          spawned lock_acquire (acquiring request (clamp_lease u.limits (lease request)) n)
            (lock_refused (lock_reply_code LockReply.capacity)) refl refl refl)
  dispatch_elim lock_release = elim (Result-cases (parse_release u.codecs.release payload)) [
    | inl (request, e) ↦ rw e (released request e)
    | inr (failure, e) ↦ rw e (broken lock_release)
  ]
  dispatch_elim log_request =
      if_valid_elim (λ d. P log_request (go_on d)) (parse_request_log u.codecs.request_log payload)
        (skipped log_request refl) (λ log. logged (submit log c.logs))
  dispatch_elim invalidate_user_access =
      if_parsed_elim (P invalidate_user_access)
        (parse_access_invalidation u.codecs.access_invalidation payload)
        (broken invalidate_user_access)
        (λ invalidation.
          if_elim (λ d. P invalidate_user_access (go_on d)) (has_permit general c)
            (invalidated invalidation) (skipped invalidate_user_access refl))
  dispatch_elim reserve_sequence =
      if_valid_elim (λ d. P reserve_sequence (go_on d)) (parse_reserve u.codecs.from_utf8 payload)
        (malformed reserve_sequence refl)
        (λ request. spawned reserve_sequence (reserving request n) unavailable refl refl refl)
  dispatch_elim set_sequence =
      if_valid_elim (λ d. P set_sequence (go_on d)) (parse_set u.codecs.from_utf8 payload)
        (malformed set_sequence refl)
        (λ request. spawned set_sequence (setting request n) unavailable refl refl refl)
