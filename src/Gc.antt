-- ===== src/Gc.antt =====
-- Garbage collection: the tasks of pkgs/bay/app/services/gc/tasks and the cycle of
-- pkgs/bay/app/services/gc/scheduler.py.
pub mod Sweep
pub mod Sandboxes
pub mod Orphans
pub mod Cycle
pub mod Reclaim
pub mod Kept
pub mod Reports
pub mod Tests
