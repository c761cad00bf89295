-- ===== src/Service/Reader.antt =====
-- src/service/server.rs: the loop of `handle_connection`, and a connection among its handlers.
use fareward.Common.{ℕ, ◌+◌, ◌^◌, Bool, true, false, Option, List, [], ◌∷◌, ltb, if◌then◌else◌}
use fareward.Common.Result.{Result, ok, err}
use fareward.Limiter.Protocol.{ChargeFrame, parse_charge}
use fareward.Limiter.Mutation.{BudgetMutationFrame, parse_budget_mutation}
use fareward.Limiter.Access.{AccessInvalidation, parse_access_invalidation}
use fareward.Lock.Registry.{LockLimits, clamp_lease}
use fareward.Lock.Protocol.{
  AcquireRequest, ReleaseRequest, LockReply, lock_reply_code, lease, parse_acquire, parse_release,
}
use fareward.Reqlog.Record.{RequestLogRecord, parse_request_log}
use fareward.Reqlog.Sink.{submit}
use fareward.Sequence.Protocol.{parse_reserve, parse_set}
use fareward.Service.Auth.{verify_hash}
use fareward.Service.Frame.{
  Frame, FrameRead, stream_end, refused, complete, authenticated, read_frame,
}
use fareward.Service.Jobs.{general, charging, mutating, acquiring, invalidating, reserving, setting}
use fareward.Service.Opcode.{
  Opcode, charge_credits, lock_acquire, lock_release, log_request, mutate_company_budget,
  invalidate_user_access, reserve_sequence, set_sequence,
}
use fareward.Service.Reply.{lock_refused, sequence_invalid, unavailable}
use fareward.Service.Connection.{
  Connection, Flow, go_on, break, send, has_permit, spawn, spawn_or, drop_expired, take_report,
  close, release,
}
use Prim.Native.String.{String}

-- The codec of the colbin crate for each message, and the check for UTF-8.
pub record Codecs : Type 0 where
  pub charge : List ℕ → Option ChargeFrame
  pub budget_mutation : List ℕ → Option BudgetMutationFrame
  pub acquire : List ℕ → Option AcquireRequest
  pub release : List ℕ → Option ReleaseRequest
  pub request_log : List ℕ → Option RequestLogRecord
  pub access_invalidation : List ℕ → Option AccessInvalidation
  pub from_utf8 : List ℕ → Option String

-- `nonce` is the one that the connection was opened with.
pub record Setup : Type 0 where
  pub codecs : Codecs
  pub limits : LockLimits
  pub sha256 : List ℕ → List ℕ
  pub secret : List ℕ
  pub nonce : List ℕ

-- What comes next to the reader.
pub data Selected : Type 0 where
  shutdown timed_out read_failed reported : Selected
  arrived : List ℕ → Selected

-- The connection ends by a payload that is not valid, or a fallback takes its place.
module _ {E A : Type 0} where
  unfoldable pub if_parsed : Result E A → Connection → (A → Connection) → Flow
  if_parsed (ok a) c f = go_on (f a)
  if_parsed (err e) c f = break c

  unfoldable pub if_valid : Result E A → Connection → (A → Connection) → Connection
  if_valid (ok a) fallback f = f a
  if_valid (err e) fallback f = fallback

abbrev pub close_broken : Flow → Flow
close_broken (c, true) = (c, true)
close_broken (c, false) = (close c, false)

module _ (u : Setup) where
  -- The `match` on the opcode of a frame that is authentic.
  unfoldable pub dispatch : Opcode → List ℕ → ℕ → Connection → Flow
  unfolding parse_charge parse_budget_mutation parse_acquire parse_release parse_request_log
      parse_access_invalidation parse_reserve parse_set spawn spawn_or release send submit if_parsed
      if_valid
  dispatch charge_credits payload n c =
      if_parsed (parse_charge u.codecs.charge payload) c
        (λ request. spawn_or n unavailable (charging request n) c)
  dispatch mutate_company_budget payload n c =
      if_parsed (parse_budget_mutation u.codecs.budget_mutation payload) c
        (λ mutation. spawn_or n unavailable (mutating mutation n) c)
  dispatch lock_acquire payload n c =
      if_parsed (parse_acquire u.codecs.acquire payload) c (λ request.
        spawn_or n (lock_refused (lock_reply_code LockReply.capacity))
          (acquiring request (clamp_lease u.limits (lease request)) n) c)
  dispatch lock_release payload n c =
      if_parsed (parse_release u.codecs.release payload) c (λ request. release n request c)
  dispatch log_request payload n c = go_on (
      if_valid (parse_request_log u.codecs.request_log payload) c
        (λ log. record c { logs = submit log c.logs }))
  dispatch invalidate_user_access payload n c =
      if_parsed (parse_access_invalidation u.codecs.access_invalidation payload) c
        (λ invalidation. if has_permit general c then spawn (invalidating invalidation) c else c)
  dispatch reserve_sequence payload n c = go_on (
      if_valid (parse_reserve u.codecs.from_utf8 payload) (send n sequence_invalid c)
        (λ request. spawn_or n unavailable (reserving request n) c))
  dispatch set_sequence payload n c = go_on (
      if_valid (parse_set u.codecs.from_utf8 payload) (send n sequence_invalid c)
        (λ request. spawn_or n unavailable (setting request n) c))

  unfoldable pub is_authentic : Frame → Connection → Bool
  unfolding verify_hash
  is_authentic f c =
      verify_hash u.sha256 u.secret u.nonce c.sequence (authenticated f) f.received_tag

  -- `checked_add` on the sequence fails at the last value of 64 bits.
  unfoldable pub serve_frame : Frame → Connection → Flow
  unfolding is_authentic dispatch
  serve_frame f c =
      if is_authentic f c
      then (if ltb (c.sequence + 1) (2 ^ 64)
          then dispatch f.opcode f.payload c.sequence (record c { sequence = c.sequence + 1 })
          else break c)
      else break c

  unfoldable pub serve_read : FrameRead → Connection → Flow
  unfolding serve_frame
  serve_read stream_end c = break c
  serve_read (refused e) c = break c
  serve_read (complete f rest) c = serve_frame f c

  unfoldable pub select : Selected → Connection → Flow
  unfolding take_report read_frame serve_read
  select shutdown c = break c
  select reported c = go_on (take_report c)
  select timed_out c = elim c.held [ [] ↦ break c | _ ∷ _ ↦ go_on c ]
  select read_failed c = break c
  select (arrived bytes) c = serve_read (read_frame bytes) c

  unfoldable pub round : ℕ → Selected → Connection → Flow
  unfolding drop_expired select close
  round now selected c = close_broken (select selected (drop_expired now c))
