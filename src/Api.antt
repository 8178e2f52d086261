-- ===== src/Api.antt =====
-- The routes of pkgs/bay/app/api/v1/sandboxes.py that take an idempotency key.
pub mod Keyed
pub mod Sandboxes
pub mod Again
pub mod Tests
