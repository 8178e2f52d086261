-- ===== src/Warmup.antt =====
-- The warm-up queue: pkgs/bay/app/services/warm_pool/queue.py.
pub mod Queue
pub mod Worker
pub mod Pending
pub mod Sound
pub mod Steps
pub mod Tests
