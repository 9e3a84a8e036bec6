-- ===== src/Tests.antt =====
-- Runs of the model on concrete inputs, and the theorems applied to them.
mod Shards
mod Caches
mod Rings
mod Registries
mod Models
mod Traces
