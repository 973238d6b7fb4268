-- ===== src/Runtime/Returns.antt =====
-- What the program relies on to end without a panic.
use audius_reward_manager.Prelude.{ℕ, ◌≤◌, ◌≡◌, List, Bytes, length}
use audius_reward_manager.Outcome.{ok}
use audius_reward_manager.Outcome.Returns.{Returns}
use audius_reward_manager.State.{Pubkey, EthereumAddress}
use audius_reward_manager.Runtime.{Account, AccountInfo, Instruction, Ledger, Env}

module _ (env : Env) where
  -- The functions of other crates that give a `Result` report what they refuse as an error.
  pub record HasReturns : Type 0 where
    pub decodes_manager : (d : Bytes) → Returns (env.reward_manager_borsh.try_from_slice d)
    pub decodes_sender : (d : Bytes) → Returns (env.sender_borsh.try_from_slice d)
    pub decodes_instruction : (d : Bytes) → Returns (env.instructions_borsh.try_from_slice d)
    pub derives_address :
        (base : Pubkey) (seed : Bytes) (owner : Pubkey)
        → Returns (env.create_with_seed base seed owner)
    pub loads_index : (d : Bytes) → 2 ≤ length d → Returns (env.load_current_index d)
    pub loads_instruction : (i : ℕ) (d : Bytes) → Returns (env.load_instruction_at i d)
    pub loads_rent : (k : Pubkey) (a : Account) → Returns (env.rent_from_account_info k a)
    pub unpacks_mint : (d : Bytes) → Returns (env.unpack_token_account_mint d)
    pub derives_recipient :
        (p mint : Pubkey) (eth : EthereumAddress) → Returns (env.claimable_address p mint eth)
    pub builds_account :
        (p account mint owner : Pubkey) → Returns (env.initialize_account p account mint owner)
    pub builds_transfer :
        (p source destination authority : Pubkey) (signers : List Pubkey) (amount : ℕ)
        → Returns (env.token_transfer_ix p source destination authority signers amount)
    pub invokes :
        (ix : Instruction) (infos : List AccountInfo) (w : Ledger) → Returns (env.invoke ix infos w)
    pub invokes_signed :
        (ix : Instruction) (infos : List AccountInfo) (seeds : List (List Bytes)) (w : Ledger)
        → Returns (env.invoke_signed ix infos seeds w)

  -- The data of an account list signature instructions with at least 97 bytes only.
  abbrev pub HasLongSignatures : Bytes → Type 0
  HasLongSignatures sysvar =
      (i : ℕ) (ix : Instruction)
      → env.load_instruction_at i sysvar ≡ ok ix
      → ix.program_id ≡ env.secp256k1_program_id
      → 97 ≤ length ix.bytes

  -- The data of an account can be read as a list of instructions: there are two bytes for the index
  -- of the current one, and no signature instruction is shorter than 97 bytes.
  pub record IsListing (sysvar : Bytes) : Type 0 where
    pub indexed : 2 ≤ length sysvar
    pub long : HasLongSignatures sysvar
