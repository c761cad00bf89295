-- ===== src/Lock/Protocol.antt =====
-- src/lock/protocol.rs: the payloads that acquire a lock and that release one, and the codes of the
-- answers.
use fareward.Common.{ℕ, Option, List, ◌==◌}
use fareward.Common.Int.{ℤ}
use fareward.Common.Result.{Result, ok, ◌>>=◌, ◌>>◌, refuse_if, ok_or}

pub record AcquireRequest : Type 0 where
  pub action : ℕ
  pub identifier : ℤ
  pub max_waiters : ℕ
  pub wait_ms : ℕ
  pub lease_ms : ℕ

-- In milliseconds.
abbrev pub wait : AcquireRequest → ℕ
wait r = r.wait_ms

abbrev pub lease : AcquireRequest → ℕ
lease r = r.lease_ms

pub record ReleaseRequest : Type 0 where
  pub action : ℕ
  pub identifier : ℤ
  pub generation : ℕ

-- `LockReply::Ok` is `done`.
pub data LockReply : Type 0 where
  done busy wait_timeout capacity misuse : LockReply

abbrev pub lock_reply_code : LockReply → ℕ
lock_reply_code done = 0
lock_reply_code busy = 1
lock_reply_code wait_timeout = 2
lock_reply_code capacity = 3
lock_reply_code misuse = 4

pub data LockProtocolError : Type 0 where
  malformed empty_lease : LockProtocolError

-- `decode` is the codec of the colbin crate.
unfoldable pub parse_acquire :
    (List ℕ → Option AcquireRequest) → List ℕ → Result LockProtocolError AcquireRequest
parse_acquire decode payload = do
  request ← ok_or (decode payload) malformed
  refuse_if (request.lease_ms == 0) empty_lease
  ok request

unfoldable pub parse_release :
    (List ℕ → Option ReleaseRequest) → List ℕ → Result LockProtocolError ReleaseRequest
parse_release decode payload = ok_or (decode payload) malformed
