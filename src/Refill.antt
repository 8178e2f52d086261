-- ===== src/Refill.antt =====
-- The warm pool's maintenance: `WarmPoolScheduler` of pkgs/bay/app/services/warm_pool/scheduler.py.
pub mod Reconcile
pub mod Maintain
pub mod Reconciles
pub mod Kept
pub mod Bound
pub mod Fills
pub mod Tests
