-- ===== src/Auth.antt =====
-- Password login with progressive lockout (internal/auth).
pub mod Lockout
pub mod Login
pub mod SecondFactor
mod Tests
