-- ===== src/SecretSync.antt =====
-- The mirroring of a config's secrets to another service (internal/secretsync).
pub mod Provider
pub mod Fingerprint
pub mod Reconcile
mod Tests
