-- ===== src/Cache.antt =====
-- internal/cache: the data plane of a cache node.
pub mod Entry
pub mod Policy
pub mod Shard
pub mod Sampled
pub mod S3fifo
pub mod Sharded
pub mod Holder
pub mod Lrb
