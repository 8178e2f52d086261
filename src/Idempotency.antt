-- ===== src/Idempotency.antt =====
-- Idempotency keys: pkgs/bay/app/services/idempotency.py and pkgs/bay/app/models/idempotency.py.
pub mod Key
pub mod Service
pub mod Rows
pub mod Replay
pub mod Unique
pub mod Isolated
pub mod Cleanup
pub mod Tests
