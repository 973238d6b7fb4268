-- ===== src/Entrypoint.antt =====
-- program/src/entrypoint.rs, and the texts and the printing of program/src/error.rs.
pub mod Texts
use Prim.Native.String.{String}
use audius_reward_manager.Prelude.{List, [], ◌∷◌, Bytes}
use audius_reward_manager.Outcome.{Result, ok, err, panic}
use audius_reward_manager.Error.{
  AudiusProgramError, ProgramError, sign_collission, wrong_signer, incorect_sender_account,
  incorect_manager_account, wrong_reward_manager_key, wrong_recipient_key, not_enough_signers,
  secp256_instruction_missing, instruction_load_error, repeated_senders,
  signature_verification_failed, operator_collision,
}
use audius_reward_manager.State.{Pubkey}
use audius_reward_manager.Runtime.{AccountInfo, Ledger, Env}
use audius_reward_manager.Processor.Dispatch.{process_instruction}

-- What is logged, in order.
abbrev pub Log : Type 0
Log = List String

-- `to_string`, by the `#[error(…)]` of each variant.
unfoldable pub to_string : AudiusProgramError → String
to_string sign_collission = "Signature with an already met principal"
to_string wrong_signer = "Unexpected signer met"
to_string incorect_sender_account = "Incorect sender account"
to_string incorect_manager_account = "Incorect account manager"
to_string wrong_reward_manager_key = "Wrong reward manager key"
to_string wrong_recipient_key = "Wrong recipient Solana key"
to_string not_enough_signers = "Isn't enough signers keys"
to_string secp256_instruction_missing = "Secp256 instruction missing"
to_string instruction_load_error = "Instruction load error"
to_string repeated_senders = "Repeated sender"
to_string signature_verification_failed = "Signature verification failed"
to_string operator_collision = "Some signers have same operators"

-- `impl PrintProgramError for AudiusProgramError`
unfoldable pub print : AudiusProgramError → Log
unfolding to_string
print e = to_string e ∷ []

-- `ProgramError::print::<E>` of `solana_program`, by what it logs when `E` prints itself like this.
abbrev pub Printer : Type 0
Printer = (AudiusProgramError → Log) → ProgramError → Log

-- What the entry point logs of a result (the handlers log more before), and what it passes on. A
-- panic ends the program before.
unfoldable pub catch : Printer → Result ProgramError Ledger → Log × Result ProgramError Ledger
unfolding print
catch printer (ok w) = ([], ok w)
catch printer (err error) = (printer print error, err error)
catch printer panic = ([], panic)

module _ (env : Env) (printer : Printer) (program_id : Pubkey) where
  -- `process_instruction` of program/src/entrypoint.rs
  unfoldable pub entrypoint : List AccountInfo → Bytes → Ledger → Log × Result ProgramError Ledger
  unfolding catch
  entrypoint accounts instruction_data w =
      catch printer (process_instruction env program_id accounts instruction_data w)
