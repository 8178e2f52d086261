-- ===== src/Model.antt =====
-- The rows of the Bay database and the profile configuration: pkgs/bay/app/models/sandbox.py,
-- session.py and cargo.py, pkgs/bay/app/config.py, and the container values of
-- pkgs/bay/app/drivers/base.py. Ids, owners, endpoints and volume references are opaque texts that
-- the code only compares and orders: they are numbers here, in the order of the texts. A moment is
-- a number of microseconds. Container names, runtime types and capabilities, which the code compares
-- with fixed words, are texts.
mod Rows
mod Status
mod Profiles
unfoldable pub use Rows.*
unfoldable pub use Status.*
unfoldable pub use Profiles.*
