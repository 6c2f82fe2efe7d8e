-- ===== src/Lib.antt =====
-- Invar is a Redis-compatible server over a transactional key-value store. A connection decodes RESP
-- frames (src/redis/resp.rs) into commands; a command becomes an operation that runs in a
-- transaction of the store (src/kv/kv.rs) and whose result is encoded as a reply. Compound values
-- have a sentinel under their public key and elements under a prefix (src/redis/common/namespace.rs).
--
-- Files and what they model:
-- - Prelude and its children: names, lists, results and byte strings that the others share.
-- - Resp: src/redis/resp.rs. Resp/Value has `RespValue` and `RespError`, Resp/Number `parse_int` and
--   the decimal text of integers, Resp/Encoder `encode_value`, Resp/Decoder `RespDecoder` and
--   `decode`. `round` is one turn of the loop of `decode`: it returns or goes on. The stack is kept
--   with the innermost array first. Resp/Progress, Resp/Lines, Resp/Resume, Resp/RoundTrip,
--   Resp/Limits and Resp/Chunks hold the proofs.
-- - Pattern: src/redis/pattern.rs. `match_loop` is the loop of `match_at`, with the flag
--   `skip_longer_matches` as the second part of its answer. Pattern/Matching has the relation that a
--   pattern matches.
-- - Kv: src/kv/kv.rs, with `set_keeping_ttl` of src/redis/common/mod.rs and `DbError` of
--   src/redis/common/op.rs. A transaction is the record `Tx`: a state, its operations, and laws that
--   a read sees the transaction's own writes. Time is an argument.
-- - Namespace: src/redis/common/namespace.rs.
-- - Bitmap: src/redis/bitmap.rs. SETBIT, GETBIT, BITCOUNT and BITPOS, and BITOP in Bitmap/BitOp,
--   each as a function on bytes and as an operation in a transaction. Bitmap/Bits,
--   Bitmap/Store, Bitmap/Counts and Bitmap/BitOp/Combine hold the proofs.
-- - Registry: src/redis/common/registry.rs. Each operation under the mutex is a function on
--   `WatchRegistry`; the oneshot channel of a waiter is the entry of its id in `channel`.
--   Registry/Steps has the sequences of operations of clients and writers.
-- - Watch: WATCH and the check of EXEC in src/redis/common/session.rs. The iteration order of the
--   map of watched keys is that of the list; the check has one answer for every failing key.
-- - Keys: the derivation of storage keys in src/redis/common/session.rs.
-- - Multi: the queue and the flags of MULTI in src/redis/common/session.rs. `Session` has the fields
--   of the source that these operations use.
-- - Dispatch: `dispatch_pending_ops` of src/redis/common/session.rs. Dispatch/Attempts, Dispatch/Bumps,
--   Dispatch/Settle, Dispatch/Retry and Dispatch/Exec hold the proofs. The database half of an
--   operation is a function `run` on the state of the transaction, the wire half a function `reply`,
--   and what the store and the other sessions do is the environment `env`. What a dispatch does to the
--   registry in the end is a function of it, since other sessions may have changed it by then.
-- - Chain: src/redis/list.rs. `Linked` and its operations are in Chain, its form in the store in
--   Chain/Store, the moves and deletions of stored nodes in Chain/Walks, and the database halves of the
--   commands in Chain/Commands. Chain/Segments, Chain/Represent, Chain/Ends, Chain/Insertion,
--   Chain/Pivot, Chain/Matches, Chain/Thinned, Chain/FromTail, Chain/Trim, Chain/Codec, Chain/Saved,
--   Chain/Loaded, Chain/RoundTrip, Chain/Commands/Pushes, Chain/Commands/Ranges, Chain/Commands/Reads and
--   Chain/Commands/Trims hold the proofs: `Represents` relates a list to the sequence of its elements,
--   each a key and a value.
-- - Strings: src/redis/strings.rs, the database halves but those of GETEX and INCRBYFLOAT.
--   Strings/Ranges, Strings/Sums and Strings/Pairs hold the proofs.
-- - Examples: a store in memory, and every theorem at a concrete input.
--
-- Bytes are natural numbers, byte strings are lists of them. The counters of the registry wrap at
-- 2 ^ 64. Integers of 64 bits are unbounded where the code tests their range first (`parse_int`);
-- lengths and offsets do not come near the bound.
-- The four bytes of a trailer hold a length modulo 2 ^ 32.
--
-- Fuel: `decode` gives its loop one turn more than the buffer has bytes, and each turn takes a byte;
-- `match_at` gives its loop one more than the pattern has bytes; `decimal` gives its loop one turn
-- more than the number. A walk over a list in memory gets as many rounds as its map has nodes, which is
-- no less than the length of a chain of distinct keys; a walk over a stored list gets the rounds that
-- it is called with. `dispatch_pending_ops` gives its loop one round more than there are retries.
--
-- Not modelled: sockets and tasks, the command table, the store's backends, the script interpreter, the
-- wire halves of the commands, and the value types other than strings, lists and the sentinels that
-- they share. The clock and the random keys are arguments of the operations that read them, and a
-- score is its bits.
pub mod Prelude
pub mod Resp
pub mod Pattern
pub mod Kv
pub mod Namespace
pub mod Bitmap
pub mod Registry
pub mod Chain
pub mod Keys
pub mod Watch
pub mod Multi
pub mod Strings
pub mod Dispatch
mod Examples
