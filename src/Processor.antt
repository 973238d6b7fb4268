-- ===== src/Processor.antt =====
-- program/src/processor.rs, a module for each group of its handlers, and what is proved of them.
pub mod Accounts
pub mod Votes
pub mod Init
pub mod Senders
pub mod Payout
pub mod Dispatch
pub mod Stable
pub mod Records
pub mod History
pub mod Fate
pub mod Returns
pub mod Managers
pub mod Once
pub mod Register
pub mod Consented
