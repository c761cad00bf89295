-- ===== src/Lib.antt =====
-- Fareward: one Rust process that hosts an access gate with a credit limiter, a lock service, a
-- sequence allocator and a request log on a shared TCP port, and an SSE bridge over HTTP.
--
-- The services share the process and its port and do not call one another, so each is modelled on
-- its own; a connection of the port calls them all. Source paths are from the repository's root.
--
-- - Common: native numbers, lists, 64-bit signed integers, results and string maps for all parts.
-- - Sequence (src/sequence/allocator.rs, src/sequence/store.rs): Block is `SequenceState`, Store
--   the trait `SequenceStore` with what is relied on of the database, Critical the part of `reserve`
--   and `set` under the lock of a counter, Allocator the map of names with its pruning. Claims,
--   Serves and Sets state what one call does; Unique, History, Preserve and NoReuse follow histories
--   of calls and restarts; LostSet is about a write whose answer is lost, Wraps about the end of the
--   64-bit numbers. Protocol is src/sequence/protocol.rs, the payloads of its two opcodes.
-- - Limiter: Credits and Blob are src/limiter/credits_blob.rs, the stored form of the credits of
--   each route, read back in Blob/Fields, Entries, Reread and RoundTrip. Policy, Bucket, Subject and
--   Budget are the limits, `TokenBucket`, `SubjectState` and `CompanyBudgetState` of
--   src/limiter/quota.rs; Admission is the decision and the charges of `admit_at` for states that are
--   loaded. Bucket/Rate follows one bucket, Subject/Gates and Admission/Gates say what the gates let
--   through, Admission/Branches what one call comes to, and Admission/Company, Day and Total the
--   calls of a day. Mutation is src/limiter/budget.rs and `mutate_budget_at`, with the columns that
--   hold a budget (Columns) and the month after it is set (Month). Usage is the usage row of
--   src/limiter/aggregation.rs, with its charges (Increment) beside a flush (Flush). Protocol is
--   src/limiter/protocol.rs: Charges are the checks behind the codec, Bytes the byte of a refusal.
--   Admission/Free is about requests without credits. TimeFrame is src/limiter/time_frame.rs with the
--   start of a month (Months) against the Gregorian calendar (Calendar). Gate is `RateLimiter` with
--   its maps: the authorization and its cache, the loading of what is not in memory (Load), and
--   `admit_at` with the usage rows that it writes (Charge); Warm relates it to Admission, Refusals
--   and Revocation are about access. Access is src/limiter/access.rs: the blobs of a user's accesses
--   with their validation, the binary search (Search), the walk over the sub grants (Runs), the
--   verdict (Slots) and the bytes that it carries (Width).
-- - Lock (src/lock/registry.rs): Registry has the map of entries and one operation for each step of
--   `acquire` and of the drop of a guard between which other tasks run; System lets any task move
--   next; Semaphore is the runtime's semaphore. Invariant and its children, Exclusion, Queue and
--   Progress follow all interleavings. Tasks is about sums over tasks. The number of tasks is any.
--   Protocol is src/lock/protocol.rs, the payloads and the codes of the answers.
-- - Siphash (src/siphash.rs) is SipHash-2-4; Pieces is about a message that comes in pieces.
-- - Bridge: Token is the channel token of src/bridge/token.rs, with its numbers in groups of seven
--   bits; ten groups are fuel enough for 64 bits. Channel and Registry are src/bridge/channel.rs: a
--   connected tab with the replies awaited from it (Replies), and the channels by their keys with
--   those that wait for one, in steps of any order (Successors, Arrivals, Wakeups).
-- - Reqlog: Record is src/reqlog/protocol.rs, the record of a request and its packed key (Packed),
--   Sink the queue of src/reqlog/writer.rs, and Errors (src/reqlog/errors.rs) the gate in front of
--   the writes of error rows, with its ceiling (Ceiling); Freshness and Repeats are about histories
--   of errors (History).
-- - Service: Shape, Reply and Opcode are src/service/protocol.rs, with a client that reads a reply
--   (Read) and all of a stream (Stream), and the buffer of the frames (Buffer). Auth is
--   src/service/auth.rs, with the message behind a tag (Tags). Frame, Jobs, Connection and Reader are
--   `handle_connection` of src/service/server.rs: the reads of a frame, the handlers, what the reader
--   does to the state of its connection, and its loop. Session lets the reader and the handlers move
--   in any order; Kept and Guards follow the guards of the locks, Owed, Answers and Sequences the
--   replies, Holds one lock that is held, and Ends the loop over a client's bytes. Branches takes the
--   decisions of the reader apart for all of them.
-- - Tests: the theorems at concrete inputs.
--
-- Numbers are unbounded naturals and integers with the checks, the saturation and the wrap-around
-- of the source written out. The database, the hashers, the clock and the runtime are parameters.
-- A call that holds the lock of its data from end to end is one step. The fuel of the loop over a
-- blob is its length; each round reads at least the two bytes of a header. A round of the reader
-- takes the bytes of a frame at once, as those that come before its timeouts, and the channels
-- between the tasks of a connection have room.
--
-- Not modelled: the loops of the flushes over the maps and the pruning of clean rows, the accept
-- loop of the port, the session token, and the shards of the lock registry: one map stands for
-- all, and the number of keys is compared and raised in one step, while two shards can do it at
-- once, so nothing is said of its ceiling.
-- Nor are the network and HTTP layers, the configuration, the metrics collector and the
-- database statements, which are input and output, and the codecs of foreign crates.
pub mod Common
pub mod Sequence
pub mod Limiter
pub mod Lock
pub mod Siphash
pub mod Bridge
pub mod Reqlog
pub mod Service
mod Tests
