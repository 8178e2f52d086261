-- ===== src/Sandbox.antt =====
-- `SandboxManager` of pkgs/bay/app/managers/sandbox/sandbox.py. A sandbox is what a client holds: it
-- joins a cargo, a profile and, at most, one current session.
pub mod Listing
pub mod Listed
pub mod Whole
pub mod Create
pub mod Lifecycle
pub mod Ttl
pub mod Warm
pub mod Claims
pub mod Removal
mod Tests
