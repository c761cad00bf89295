-- ===== src/Tests/Connections.antt =====
-- src/service/server.rs: a connection that locks, releases and closes.
use fareward.Common.{
  times, ℕ, ◌+◌, ◌*◌, ◌≤◌, ◌≡◌, refl, ◌⊎◌, true, false, Option, none, some, List, [], ◌∷◌, ◌++◌,
  length, arith,
}
use fareward.Common.Int.{pos}
use fareward.Common.Result.{ok}
use fareward.Common.Bytes.{be_bytes}
use fareward.Lock.Registry.{LockKey, key_eq}
use fareward.Lock.Protocol.{AcquireRequest, ReleaseRequest}
use fareward.Reqlog.Sink.{disabled}
use fareward.Service.Auth.{compute_hash}
use fareward.Service.Connection.{Connection, Flow, guards_of, reported_guards}
use fareward.Service.Frame.{Frame, read_frame}
use fareward.Service.Frame.Bounds.{IsCut, read_frame-IsCut}
use fareward.Service.Jobs.{HeldLock, Services}
use fareward.Service.Opcode.{Opcode, lock_acquire, lock_release, opcode_byte}
use fareward.Service.Reader.{Setup, reported, arrived}
use fareward.Service.Reply.{ack, lock_granted, lock_refused}
use fareward.Common.KeyMap.{get}
use fareward.Service.Session.{Event, reader, handler, opened, step, run}
use fareward.Service.Session.Guards.{granted_in, run_guards}
use fareward.Service.Session.Owed.{answered, owed}
use fareward.Service.Session.Answers.{accepted_in}
use fareward.Service.Session.Sequences.{run-answers}
use fareward.Service.Session.Holds.{MayEnd, Holds, step-Holds}
use fareward.Service.Session.Ends.{serve_bytes, serve_bytes_ends}

read_acquire : List ℕ → Option AcquireRequest
read_acquire (action ∷ identifier ∷ lease ∷ []) = some (record {
  action = action;
  identifier = pos identifier;
  max_waiters = 0;
  wait_ms = 0;
  lease_ms = lease;
})
read_acquire bytes = none

read_release : List ℕ → Option ReleaseRequest
read_release (action ∷ identifier ∷ generation ∷ []) =
    some (record { action = action; identifier = pos identifier; generation = generation })
read_release bytes = none

abbrev setup : Setup
setup = record {
  codecs = record {
    charge = λ bytes. none;
    budget_mutation = λ bytes. none;
    acquire = read_acquire;
    release = read_release;
    request_log = λ bytes. none;
    access_invalidation = λ bytes. none;
    from_utf8 = λ bytes. none;
  };
  limits = record { max_keys = 10; max_total_waiters = 10; max_lease = 50 };
  sha256 = λ bytes. bytes;
  secret = 1 ∷ 2 ∷ [];
  nonce = 9 ∷ 9 ∷ 9 ∷ 9 ∷ 9 ∷ 9 ∷ 9 ∷ 9 ∷ [];
}

-- A frame with the tag of its sequence.
signed_frame : Opcode → List ℕ → ℕ → List ℕ
unfolding opcode_byte be_bytes compute_hash
signed_frame opcode payload n =
    let body = opcode_byte opcode ∷ be_bytes 2 (length payload) ++ payload in
    body ++ compute_hash setup.sha256 setup.secret setup.nonce n body

abbrev services : Services
services = record {
  admit = λ request. none;
  mutate_budget = λ mutation. none;
  acquire = λ request. ok (record { guard = 7; generation = 3 });
  reserve = λ request. none;
  set = λ request. none;
}

-- The lock 4 of action 1 is taken, reported and answered, and released with a stale generation and
-- the right one.
abbrev history : List Event
history =
    reader 0 (arrived (signed_frame lock_acquire (1 ∷ 4 ∷ 100 ∷ []) 0))
    ∷ handler services 1 0
    ∷ reader 2 reported
    ∷ handler services 3 0
    ∷ reader 4 (arrived (signed_frame lock_release (1 ∷ 4 ∷ 2 ∷ []) 1))
    ∷ reader 5 (arrived (signed_frame lock_release (1 ∷ 4 ∷ 3 ∷ []) 2))
    ∷ []

abbrev start : Flow
start = (opened disabled 4, true)

abbrev served : Flow
served = run setup history start

served_replies : served.0.sent ≡ (0, lock_granted 3) ∷ (1, lock_refused 4) ∷ (2, ack) ∷ []
unfolding run signed_frame opened read_acquire read_release key_eq
served_replies = refl

served_guards : served.0.dropped ≡ 7 ∷ []
unfolding run signed_frame opened read_acquire read_release key_eq
served_guards = refl

run_guards_example :
    (times 7 (guards_of served.0.held ++ reported_guards served.0.reports ++ served.0.dropped)
      ≡ times 7 (granted_in setup history start))
    × ((served.1 ≡ true) ⊎ (times 7 served.0.dropped ≡ times 7 (granted_in setup history start)))
run_guards_example = run_guards setup disabled 4 history 7

run-answers_example :
    ((served.1 ≡ false)
      ⊎ (times 1 (answered served.0.sent ++ owed served.0.handlers)
          ≡ times 1 (accepted_in setup history start)))
    × (times 1 (accepted_in setup history start) ≤ 1)
run-answers_example = run-answers setup disabled 4 history 1

abbrev key : LockKey
key = (1, pos 4)

abbrev lock : HeldLock
lock = record { guard = 7; generation = 3; expires_at = 51 }

abbrev holding : Connection
holding = record (opened disabled 4) { held = (key, lock) ∷ []; sequence = 1 }

abbrev stale : Event
stale = reader 4 (arrived (signed_frame lock_release (1 ∷ 4 ∷ 2 ∷ []) 1))

holding-Holds : Holds key lock holding
unfolding get key_eq
holding-Holds = refl

step-Holds_example :
    (Holds key lock (step setup stale (holding, true)).0)
    ⊎ ((step setup stale (holding, true)).1 ≡ false)
    ⊎ MayEnd setup key lock stale holding
step-Holds_example = step-Holds key lock setup stale holding holding-Holds

abbrev two_frames : List ℕ
two_frames =
    signed_frame lock_acquire (1 ∷ 4 ∷ 100 ∷ []) 0 ++ signed_frame lock_release (1 ∷ 4 ∷ 2 ∷ []) 1

two_frames-length : length two_frames ≡ 28
unfolding signed_frame
two_frames-length = refl

serve_bytes_ends_example :
    (s : Flow) × (serve_bytes setup 40 3 two_frames start.0 ≡ some s)
    × (s.1 ≡ false)
    × (11 * s.0.sequence ≤ 11 * start.0.sequence + length two_frames)
serve_bytes_ends_example =
    serve_bytes_ends setup 3 40 two_frames start.0 (omega (arith, two_frames-length))

abbrev frame : Frame
frame = record {
  opcode = lock_release;
  head = 3 ∷ 0 ∷ 2 ∷ [];
  payload = 5 ∷ 6 ∷ [];
  received_tag = 1 ∷ 2 ∷ 3 ∷ 4 ∷ 5 ∷ 6 ∷ 7 ∷ 8 ∷ [];
}

abbrev framed_bytes : List ℕ
framed_bytes = 3 ∷ 0 ∷ 2 ∷ 5 ∷ 6 ∷ 1 ∷ 2 ∷ 3 ∷ 4 ∷ 5 ∷ 6 ∷ 7 ∷ 8 ∷ 99 ∷ []

read_frame-IsCut_example : IsCut frame framed_bytes (99 ∷ [])
unfolding read_frame
read_frame-IsCut_example = read_frame-IsCut framed_bytes (99 ∷ []) frame refl
