-- ===== src/Error.antt =====
-- program/src/error.rs: the program's own errors, and the errors of the runtime that carry them.
mod Defs
pub mod Codes
pub use Codes.*
unfoldable pub use Defs.*
