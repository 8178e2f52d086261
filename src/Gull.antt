-- ===== src/Gull.antt =====
-- The browser runtime: pkgs/gull/app/main.py, with the command lines of pkgs/gull/app/session.py.
pub mod Command
pub mod Exec
pub mod Health
pub mod Stable
pub mod Workspace
pub mod Batch
pub mod Tests
