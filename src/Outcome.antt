-- ===== src/Outcome.antt =====
-- Rust's `Result` with its `?`, and the panics that end a program without a result.
mod Defs
mod Inversion
pub mod Ensures
pub mod Returns
pub use Defs.{Result, ok, err, panic, ⊤, ◌>>◌}
unfoldable pub use Defs.{◌>>=◌, return_if, map_err}
pub use Inversion.*
