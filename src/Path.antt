-- ===== src/Path.antt =====
-- The path validator of Bay: pkgs/bay/app/validators/path.py. A path is the list of its code
-- points. `PurePosixPath` is Python's: `parts` splits at the slashes and drops empty and `.`
-- components, and a path that begins with a slash is absolute.
pub mod Split
pub mod Normal
pub mod Stable
pub mod Escape
mod Tests
