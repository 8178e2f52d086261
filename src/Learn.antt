-- ===== src/Learn.antt =====
-- Learning skills from browser runs: pkgs/bay/app/services/skills/scheduler.py.
pub mod Steps
pub mod Segments
pub mod Runs
pub mod Keys
pub mod Store
pub mod Processor
pub mod Kept
pub mod KeptCycle
pub mod Closed
pub mod Outcome
pub mod Final
pub mod Settled
pub mod KeyChars
pub mod Cycle
pub mod Tests
