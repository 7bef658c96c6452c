-- ===== src/Outcome.antt =====
-- How a Go function ends: with a value, with an error that it returns, or by a crash; and the
-- functions that also change an object.
mod Failure
mod Returns
mod Effects
pub mod Keeps
pub mod Rounds
pub mod Succeeds
pub mod Ensures
unfoldable pub use Failure.*
unfoldable pub use Returns.*
unfoldable pub use Effects.*
