-- ===== src/Tests.antt =====
-- Runs of the program on a small concrete chain, and the theorems at concrete data.
pub mod Chain
pub mod Scene
mod Payout
mod Senders
mod Signatures
mod Managers
pub mod Desk
mod Building
mod Signing
mod Honest
mod Rewarding
mod Payment
mod Register
mod Fates
mod Starting
mod Ending
mod Managing
mod Initiating
mod Commands
mod Arguments
mod Forging
mod Overwriting
mod Logging
mod Adding
