-- ===== src/World.antt =====
-- What the managers of pkgs/bay/app/managers act on: the database tables, the in-memory locks of
-- pkgs/bay/app/concurrency/locks.py, and the world outside of Bay behind an interface.
pub mod Runtime
pub mod Effect
pub mod Keeps
pub mod Post
pub mod Returns
pub mod Sample
