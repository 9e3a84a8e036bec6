-- ===== src/Lib.antt =====
-- Belady: a sharded object cache with learned eviction, the hash ring of its gateway, the registry
-- that hands models to the cache nodes, and the offline optimum that policies are measured against.
--
-- A client's request goes through the gateway's hash ring to a node, and there to the shard that the
-- key's hash selects. A shard holds entries and asks its policy for a victim when an insert does not
-- fit; it writes each access to a trace ring, from which a recorder drains. A model trained on such
-- traces is published to the registry, which streams it to the nodes.
--
--  * Trace/Ring.antt: internal/trace/ring.go. `push` is Push, `drain` is Drain.
--  * Cache/Entry.antt, Cache/Policy.antt, Cache/Sampled.antt: internal/cache/entry.go and policy.go, with
--    the interfaces as records. float64 is a parameter with what IEEE 754 says of it
--    (Common/Float.antt).
--  * Cache/Shard.antt: internal/cache/shard.go. `get`, `insert_value` and `remove` are get, insert and
--    remove; the lock makes each a function from a shard to the next. The order of a `range` over the
--    map and the clock are the record `Env`.
--  * Cache/S3fifo.antt: internal/cache/s3fifo.go, as a policy. Cache/Policy/Laws.antt says what a
--    policy may do to entries.
--  * Cache/Sharded.antt: internal/cache/cache.go, from New to Hash.
--  * Cache/Lrb.antt: the learned policy of internal/cache/lrb.go, and Cache/Holder.antt its ModelHolder.
--  * Features.antt: internal/features/features.go.
--  * Model/Load.antt and Model/Tree.antt: internal/model/model.go, Load with the line parser, and flush,
--    checkShape and Raw, over a float32 parameter.
--  * Trace/Recorder.antt, Trace/Disk.antt and Trace/Wire.antt: internal/trace/recorder.go, the writer of
--    the segments, its files and their framing; Trace/Names.antt: the files' names and their listing;
--    Trace/Reader.antt: internal/trace/reader.go. protobuf is a parameter with what it documents, and
--    each call of the file system may fail.
--  * Hashring.antt: internal/hashring/hashring.go. The capacity, a float64 computation, is a parameter.
--  * Registry/Stream.antt, Registry/Store.antt, Registry/Store/Names.antt and Registry/Service.antt:
--    internal/registry/registry.go; SHA-256 and proto.Marshal are parameters, and each call of the file system may fail.
--  * Registry/Store/Watching.antt: WatchModels of the same file, beside publishes; a channel is a
--    number, and closing it wakes the watcher that waits on it.
--  * Registry/Watcher.antt: internal/registry/watcher.go.
--  * Min.antt: internal/belady/min.go; container/heap is a parameter with what it documents.
--  * Common.antt: lists, maps, text, 64-bit words and Boolean tests over the native numbers.
--  * Tests.antt: runs on concrete inputs.
--
-- A word of w bits wraps at 2 ^ w; an int64 is a word read as signed by `lt_i64`. A method that a lock
-- guards is one step. Loops that the source bounds by a condition take fuel: the eviction loop of
-- insert one round more than the shard has entries, the victim loop of S3-FIFO the source's own bound,
-- the chunks of GetModel the length of the body, evictFurthest the length of the heap,
-- the walk of a tree the number of the model's nodes, the reader the bytes of the file, and the drain of
-- a ring one round more than it has slots.
--
-- Not modelled: the objective and the sigmoid of a model, which no eviction reads, the configuration,
-- the load generator, the HTTP and gRPC servers of cmd, metrics and logs, and the trainer, which is Python.
-- A concurrent producer and consumer of a trace ring are taken one call at a time.
pub mod Common
pub mod Trace
pub mod Cache
pub mod Model
pub mod Features
pub mod Hashring
pub mod Registry
pub mod Min
mod Tests
