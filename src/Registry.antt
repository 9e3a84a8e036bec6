-- ===== src/Registry.antt =====
-- internal/registry: model hand-over between the trainer and the cache nodes.
pub mod Stream
pub mod Store
pub mod Service
pub mod Watcher
