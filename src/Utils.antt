-- ===== src/Utils.antt =====
-- program/src/utils.rs, a module for each group of its functions, and what is proved of them.
pub mod Address
pub mod Cpi
pub mod Secp
pub mod Senders
pub mod Checkmap
pub mod Verify
