-- ===== src/Audit.antt =====
-- The audit log's hash chain, its verification, and its signed checkpoints (internal/audit).
pub mod Bytes
pub mod Encoding
pub mod Chain
pub mod Log
pub mod Recorder
pub mod Pruning
mod Samples
mod Tests
