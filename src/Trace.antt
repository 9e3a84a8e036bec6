-- ===== src/Trace.antt =====
-- internal/trace: the access trace of a cache node.
pub mod Names
pub mod Ring
pub mod Wire
pub mod Disk
pub mod Reader
pub mod Recorder
