-- ===== src/Runtime.antt =====
-- What the program uses of the chain and of other crates: accounts and instructions as data, and
-- every function that is not the repository's own as a field of `Env`.
pub mod Laws
pub mod Returns
use audius_reward_manager.Prelude.{ℕ, Bool, List, Bytes, ◌==◌, if◌then◌else◌}
use audius_reward_manager.Outcome.{Result}
use audius_reward_manager.Error.{ProgramError, SanitizeError}
use audius_reward_manager.State.{Pubkey, EthereumAddress, RewardManager, SenderAccount}
use audius_reward_manager.Instructions.{Instructions}

-- The account that a key names. A key that was never used names an account with no lamports and no
-- bytes.
pub record Account : Type 0 where
  pub lamports : ℕ
  pub bytes : Bytes
  pub owner : Pubkey

abbrev pub Ledger : Type 0
Ledger = Pubkey → Account

-- `AccountInfo`: its data, lamports and owner are those of the ledger at `key`, so that an account
-- which is passed twice is one account.
pub record AccountInfo : Type 0 where
  pub key : Pubkey
  pub is_signer : Bool
  pub is_writable : Bool

pub record AccountMeta : Type 0 where
  pub pubkey : Pubkey
  pub is_signer : Bool
  pub is_writable : Bool

pub record Instruction : Type 0 where
  pub program_id : Pubkey
  pub accounts : List AccountMeta
  pub bytes : Bytes

-- `PubkeyError`, which the program only passes on.
abbrev pub PubkeyError : Type 0
PubkeyError = ℕ

-- `Rent`, whose parameters the program never looks at.
abbrev pub Rent : Type 0
Rent = ℕ

-- A type with `#[derive(BorshSerialize, BorshDeserialize)]`
pub record Borsh (A : Type 0) : Type 0 where
  pub try_from_slice : Bytes → Result ProgramError A
  pub serialize : A → Bytes

pub record Env : Type 0 where
  -- borsh
  pub reward_manager_borsh : Borsh RewardManager
  pub sender_borsh : Borsh SenderAccount
  pub instructions_borsh : Borsh Instructions
  -- the error of a writer that runs out of room
  pub write_error : ProgramError
  -- solana_program::pubkey, bs58
  pub find_program_address : List Bytes → Pubkey → Pubkey × ℕ
  pub create_with_seed : Pubkey → Bytes → Pubkey → Result PubkeyError Pubkey
  pub from_pubkey_error : PubkeyError → ProgramError
  pub bs58_encode : Bytes → Bytes
  -- solana_program::sysvar
  -- the last two bytes of the data; it panics if there are fewer
  pub load_current_index : Bytes → Result ProgramError ℕ
  pub load_instruction_at : ℕ → Bytes → Result SanitizeError Instruction
  -- from an account and its key
  pub rent_from_account_info : Pubkey → Account → Result ProgramError Rent
  pub minimum_balance : Rent → ℕ → ℕ
  -- program ids
  pub secp256k1_program_id : Pubkey
  pub spl_token_id : Pubkey
  pub claimable_tokens_id : Pubkey
  pub system_program_id : Pubkey
  pub sysvar_instructions_id : Pubkey
  pub sysvar_rent_id : Pubkey
  -- spl_token, claimable_tokens
  pub unpack_token_account_mint : Bytes → Result ProgramError Pubkey
  pub claimable_address : Pubkey → Pubkey → EthereumAddress → Result PubkeyError Pubkey
  pub initialize_account : Pubkey → Pubkey → Pubkey → Pubkey → Result ProgramError Instruction
  pub token_transfer_ix :
      Pubkey → Pubkey → Pubkey → Pubkey → List Pubkey → ℕ → Result ProgramError Instruction
  -- solana_program::system_instruction
  pub create_account_with_seed_ix : Pubkey → Pubkey → Pubkey → Bytes → ℕ → ℕ → Pubkey → Instruction
  -- solana_program::program
  pub invoke : Instruction → List AccountInfo → Ledger → Result ProgramError Ledger
  pub invoke_signed :
      Instruction → List AccountInfo → List (List Bytes) → Ledger → Result ProgramError Ledger

-- A write to the account of a key, as every `AccountInfo` of that key sees it.
unfoldable pub update : Ledger → Pubkey → Account → Ledger
update w k a j = if k == j then a else w j
