-- ===== src/Error/Defs.antt =====
-- program/src/error.rs
use audius_reward_manager.Prelude.{ℕ}

pub data AudiusProgramError : Type 0 where
  sign_collission wrong_signer incorect_sender_account incorect_manager_account : AudiusProgramError
  wrong_reward_manager_key wrong_recipient_key not_enough_signers : AudiusProgramError
  secp256_instruction_missing instruction_load_error repeated_senders : AudiusProgramError
  signature_verification_failed operator_collision : AudiusProgramError

-- The variants of `solana_program::program_error::ProgramError` that the program names. An error
-- that comes back from other code is `other`, by a number that the program never looks at.
pub data ProgramError : Type 0 where
  custom : ℕ → ProgramError
  incorrect_program_id invalid_seeds uninitialized_account account_already_initialized :
      ProgramError
  invalid_account_data missing_required_signature not_enough_account_keys : ProgramError
  account_borrow_failed : ProgramError
  other : ℕ → ProgramError

-- `e as u32`: the position of the variant.
unfoldable pub as_u32 : AudiusProgramError → ℕ
as_u32 sign_collission = 0
as_u32 wrong_signer = 1
as_u32 incorect_sender_account = 2
as_u32 incorect_manager_account = 3
as_u32 wrong_reward_manager_key = 4
as_u32 wrong_recipient_key = 5
as_u32 not_enough_signers = 6
as_u32 secp256_instruction_missing = 7
as_u32 instruction_load_error = 8
as_u32 repeated_senders = 9
as_u32 signature_verification_failed = 10
as_u32 operator_collision = 11

-- `impl From<AudiusProgramError> for ProgramError`
unfoldable pub from : AudiusProgramError → ProgramError
from e = custom (as_u32 e)

-- `SanitizeError`, of which the program keeps nothing.
abbrev pub SanitizeError : Type 0
SanitizeError = ℕ

unfoldable pub to_audius_program_error : SanitizeError → AudiusProgramError
to_audius_program_error _ = instruction_load_error
