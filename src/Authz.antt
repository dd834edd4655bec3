-- ===== src/Authz.antt =====
-- The authorization engine (internal/authz), with the binding and grant rows it reads from the
-- store.
pub mod Actions
pub mod Scope
pub mod Engine
pub mod Review
pub mod Effective
pub mod Roles
pub mod Decision
mod Tests
