-- ===== src/Cli.antt =====
-- cli: the command line client, which builds, signs and sends transactions for the program.
pub mod Client
pub mod Buffer
pub mod Signing
pub mod Checks
pub mod Transaction
pub mod Commands
pub mod Main
pub mod Arguments
pub mod Startup
