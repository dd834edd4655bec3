-- ===== src/Promote.antt =====
-- Promotion of secrets along a project's release pipeline (internal/promote/service.go).
pub mod State
pub mod Diff
pub mod Plan
pub mod Requests
mod Tests
