-- ===== src/Resolve.antt =====
-- Config inheritance and read-time secret references (internal/resolve).
pub mod Parse
pub mod Inherit
pub mod Expand
mod Tests
