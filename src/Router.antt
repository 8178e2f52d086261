-- ===== src/Router.antt =====
-- The choice of a runtime for a request: pkgs/bay/app/router/capability.
pub mod AdapterPool
pub mod Endpoint
pub mod Capability
pub mod Lossy
pub mod Bounds
pub mod Refines
pub mod Cached
pub mod Chosen
pub mod Routed
pub mod Tests
