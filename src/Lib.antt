-- ===== src/Lib.antt =====
-- The Audius reward manager: a Solana program that pays rewards from a vault of tokens when enough
-- senders (nodes that are known by Ethereum address) and a bot oracle have signed for the reward.
--
-- Parts of the program, and the files that model them:
--   Outcome          the Result type with its do blocks (`?` of Rust is the bind; return_if is an
--                    early return), and the rules that take a successful run apart
--   Error            program/src/error.rs
--   State            program/src/state.rs and the version of program/src/lib.rs
--   Instructions     program/src/instruction.rs: the data of the instructions, and in Builders the
--                    functions with which a client builds them
--   Runtime          what the program uses of other crates, as fields of a record Env: the derived
--                    Borsh code (Borsh), addresses (find_program_address, create_with_seed), bs58,
--                    the sysvars, the token program and the claimable tokens, invoke, invoke_signed
--   Consts           the constants of program/src/processor.rs
--   Utils            program/src/utils.rs: Address (is_owner!, get_address_pair), Cpi
--                    (token_transfer, create_account_with_seed), Secp (get_secp_instructions,
--                    get_signer_from_secp_instruction, validate_eth_signature), Senders
--                    (get_eth_addresses), Checkmap (vec_into_checkmap, check_signer), Verify (the
--                    two verifiers and the messages that are signed; Exact: what they accept, and Box: the
--                    votes as a multiset)
--   Processor        program/src/processor.rs: Accounts (transfer_all, serialize into an account),
--                    Votes (check_secp_signs), Init, Senders (create, delete, add), Payout
--                    (process_transfer), Dispatch (process_instruction, and Handlers: a rule for what
--                    all handlers have), Stable (an interface: the kinds of accounts that no handler
--                    changes; Records and Managers are two of them), History (the program over time),
--                    Register (the rewards that have been paid, as an abstract state), Consented (their
--                    votes), Fate (what becomes of a sender's account), Returns (runs without a panic)
--   Entrypoint       program/src/entrypoint.rs, and the texts of program/src/error.rs that it logs
--   Cli              cli/src/utils.rs: Checks (the validators of arguments), Buffer and Signing
--                    (new_secp256k1_instruction_2_0, sign_message), Transaction; cli/src/main.rs:
--                    Commands (the commands), Main (main, from the parsed arguments on), Arguments (the
--                    declared arguments, and Matches, which reads them) and Startup (main as a whole:
--                    the configuration and the end of the process); Client is what the client uses of
--                    other crates and of the cluster
--   Tests            a concrete chain, client and accounts, on which the theorems are applied
--
-- How they interact: the entry point calls process_instruction, which decodes an instruction and
-- takes its accounts in order, then runs a handler. process_add_sender and process_transfer build
-- a verifier and hand it to check_secp_signs, which compares the number of senders with min_votes,
-- collects the secp256k1 instructions before the current one, checks the sender accounts and runs
-- the verifier. A command of the client builds one transaction: the signature instructions of
-- Signing, then an instruction of Builders. Instructions.Builders.Agreement and Cli.Signing.Votes
-- join the two sides: a built instruction reaches its handler, and what the client signs passes
-- the votes of the program; Cli.Commands.Payment, Adding, Managing and Starting take these
-- together, a command each.
--
-- State: a Ledger maps a key to the account's lamports, bytes and owner. Every AccountInfo is a
-- key with its flags, so two infos of one key share the account, as on the chain. A handler takes
-- a ledger and returns a new one or an error; an error leaves the old ledger, since the runtime
-- undoes a failed transaction. The borrow checks of RefCell are modelled in transfer_all, where
-- one account given twice fails. A panic (a slice out of range, an unwrap of an error) is the
-- outcome `panic` of Result, which ends the run like an error. Machine words keep their bounds:
-- to_le_bytes takes bytes modulo 256, and the addition of lamports in transfer_all wraps at 64
-- bits. A BTreeMap is an association list, a BTreeSet a list without repetitions; the program uses
-- only lookup, insertion and membership. Loops are structural recursion on the list of
-- instructions, of accounts or on the number of rounds, so no fuel is used.
--
-- What is assumed, as hypotheses of the theorems that need it: Runtime.Laws.IsRuntime (only its
-- owner debits an account or changes its data; create_account_with_seed succeeds only on an
-- account without lamports; the structs are read from their size in bytes, and a sender is written
-- to it; the instruction builders address their program), Runtime.Returns.HasReturns (the
-- functions of other crates report errors and do not panic; the one that reads the index of the
-- current instruction does so on two bytes or more), IsSolvent (the lamports of any two accounts
-- fit a u64), Cli.Client.HasSizes (the sizes of addresses, hashes, signatures and offsets),
-- Cli.Client.ReadsHex (two digits of hex for each byte), Cli.Arguments.Parses and
-- Declared.IsAdmitted (the parsers read what their validators accept, and clap gives every
-- required argument a value that passes), Entrypoint.Texts.Prints (the runtime prints a code as
-- the error that has it), Cli.Startup.Signers.IsKeypairFile (a keypair file decides the signer
-- alone), and for the builders that a written instruction is read back. The program reads the
-- instructions from the account that is passed as the instructions sysvar, and does not look at
-- its key; the theorems state what it reads there. In the real sysvar, a signature instruction
-- before the current one is verified by the runtime. A step of other programs only credits an
-- account of this one. Rent collection is a step of its own (Processor.History): it may do
-- anything to an account that it does not spare, and the theorems on histories ask that it spare
-- the accounts that they speak of. The record of a payout has one lamport and is not exempt from
-- rent.
--
-- Not modelled: what the handlers log with msg!, what the client prints, the help of its
-- arguments, the derived Borsh code, and the program's tests. What clap makes of a command line,
-- the configuration file and the logger are code of other crates: the matches of the arguments are
-- given, and the functions that read the configuration and the signers are the fields of a record
-- Settings.
pub mod Prelude
pub mod Outcome
pub mod Error
pub mod Entrypoint
pub mod State
pub mod Instructions
pub mod Runtime
pub mod Consts
pub mod Utils
pub mod Processor
pub mod Cli
pub mod Tests
