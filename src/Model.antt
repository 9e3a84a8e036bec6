-- ===== src/Model.antt =====
-- internal/model: the flattened tree ensemble, its loader's checks, and its evaluation.
pub mod Tree
pub mod Load
