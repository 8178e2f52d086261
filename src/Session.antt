-- ===== src/Session.antt =====
-- `SessionManager` of pkgs/bay/app/managers/session/session.py: a session is the running container,
-- or group of containers, of a sandbox. A session value is the row that the ORM object stands for:
-- an assignment is a new value, and `write_session` its commit.
pub mod Wait
pub mod Patience
pub mod Single
pub mod Multi
pub mod Manager
pub mod Settled
pub mod Leak
mod Tests
