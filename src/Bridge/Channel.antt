-- ===== src/Bridge/Channel.antt =====
-- src/bridge/channel.rs: `ClientChannel`, one connected tab with the replies that the backend waits
-- for. A waiter is the receiver of a reply, known by a number; JSON values are their text.
pub mod Replies
use fareward.Common.{
  ℕ, Bool, true, false, not, ◌||◌, Option, none, some, List, [], ◌∷◌, ◌++◌, map, ltb, ◌==◌,
  if◌then◌else◌, length,
}
use fareward.Common.KeyMap.{get, put, take_out, value_list}
use fareward.Common.Result.{Result, ok, err}
use Prim.Native.String.{String}

abbrev pub outbound_queue_size : ℕ
outbound_queue_size = 64

pub record ReplyEnvelope : Type 0 where
  pub kind : String
  pub payload : String

pub data SendFrameError : Type 0 where
  stream_closed send_timeout : SendFrameError

abbrev pub same_number : ℕ → ℕ → Bool
same_number a b = a == b

-- `receiving` is whether the stream still has its receiver. `answered` and `dropped` are the waiters
-- that were sent a reply, and those whose sender went away without one.
pub record ClientChannel : Type 0 where
  pub key : String
  pub queued : List String
  pub receiving : Bool
  pub is_shut : Bool
  pub pending_replies : List (ℕ × ℕ)
  pub answered : List (ℕ × ReplyEnvelope)
  pub dropped : List ℕ

unfoldable pub new_channel : String → ClientChannel
new_channel key = record {
  key = key;
  queued = [];
  receiving = true;
  is_shut = false;
  pending_replies = [];
  answered = [];
  dropped = [];
}

unfoldable pub close : ClientChannel → ClientChannel
close c = record c { is_shut = true }

abbrev pub is_closed : ClientChannel → Bool
is_closed c = c.is_shut || not c.receiving

abbrev pub enqueue : String → ClientChannel → ClientChannel
enqueue message c = record c { queued = c.queued ++ message ∷ [] }

-- The queue is as it stands when the wait for room ends.
unfoldable pub send_frame :
    String → ClientChannel → ClientChannel × Result SendFrameError (Unit {0})
send_frame message c =
    if not c.receiving
    then (c, err stream_closed)
    else if ltb (length c.queued) outbound_queue_size
    then (enqueue message c, ok tt)
    else (c, err send_timeout)

unfoldable pub try_send_payload : String → ClientChannel → ClientChannel
try_send_payload payload c =
    if not c.receiving
    then c
    else if ltb (length c.queued) outbound_queue_size
    then enqueue payload c
    else c

abbrev pub waiter_list : Option ℕ → List ℕ
waiter_list = value_list (λ waiter. waiter)

-- A sender that another of the same command replaces goes away.
unfoldable pub await_reply : ℕ → ℕ → ClientChannel → ClientChannel
unfolding get put
await_reply command_id waiter c = record c {
  pending_replies = put same_number command_id waiter c.pending_replies;
  dropped = c.dropped ++ waiter_list (get same_number command_id c.pending_replies);
}

unfoldable pub release_pending_reply : ℕ → ClientChannel → ClientChannel
unfolding get take_out
release_pending_reply command_id c = record c {
  pending_replies = take_out same_number command_id c.pending_replies;
  dropped = c.dropped ++ waiter_list (get same_number command_id c.pending_replies);
}

-- `oneshot::Sender::send`, which fails for a waiter that is gone.
unfoldable pub answer : (ℕ → Bool) → ℕ → ReplyEnvelope → ClientChannel → ClientChannel
answer gone waiter envelope c =
    if gone waiter
    then record c { dropped = c.dropped ++ waiter ∷ [] }
    else record c { answered = c.answered ++ (waiter, envelope) ∷ [] }

unfoldable pub deliver_reply : (ℕ → Bool) → ℕ → ReplyEnvelope → ClientChannel → ClientChannel × Bool
unfolding get take_out answer
deliver_reply gone command_id envelope c = elim (get same_number command_id c.pending_replies) [
  | none ↦ (c, false)
  | some waiter ↦
      let removed = record c {
        pending_replies = take_out same_number command_id c.pending_replies;
      } in
      (answer gone waiter envelope removed, not (gone waiter))
]

unfoldable pub answer_all :
    (ℕ → Bool) → ReplyEnvelope → List (ℕ × ℕ) → ClientChannel → ClientChannel
unfolding answer
answer_all gone envelope [] c = c
answer_all gone envelope ((command_id, waiter) ∷ replies) c =
    answer_all gone envelope replies (answer gone waiter envelope c)

-- `message` is the JSON text of a reason.
unfoldable pub fail_all_pending_replies :
    (ℕ → Bool) → (String → String) → String → ClientChannel → ClientChannel × ℕ
unfolding answer_all
fail_all_pending_replies gone message reason c = (
  answer_all gone (record { kind = "error"; payload = message reason }) c.pending_replies
      (record c { pending_replies = [] }),
  length c.pending_replies,
)
