-- ===== src/Instructions/Builders.antt =====
-- program/src/instruction.rs: the functions with which a client builds the program's instructions.
pub mod Agreement
use audius_reward_manager.Prelude.{ℕ, List, [], ◌∷◌, ◌++◌, Bool, true, false, map}
use audius_reward_manager.Outcome.{Result, ok, ◌>>=◌, map_err}
use audius_reward_manager.Error.{ProgramError}
use audius_reward_manager.State.{Pubkey, EthereumAddress}
use audius_reward_manager.Instructions.{
  Instructions, InitRewardManager, CreateSender, AddSender, Transfer,
}
use audius_reward_manager.Runtime.{AccountMeta, Instruction, Env}
use audius_reward_manager.Consts.{sender_seed_prefix, transfer_seed_prefix}
use audius_reward_manager.Utils.Address.{get_base_address, get_address_pair}

-- `AccountMeta::new` and `AccountMeta::new_readonly`
abbrev pub writable : Pubkey → Bool → AccountMeta
writable k signs = record { pubkey = k; is_signer = signs; is_writable = true }

abbrev pub readonly : Pubkey → Bool → AccountMeta
readonly k signs = record { pubkey = k; is_signer = signs; is_writable = false }

-- Each `try_to_vec` writes into a vector, which takes every value.
module _ (env : Env) (program_id reward_manager : Pubkey) where
  unfoldable pub init :
      (token_account mint manager : Pubkey) → (min_votes : ℕ) → Result ProgramError Instruction
  unfolding get_base_address
  init token_account mint manager min_votes =
      let init_data = Instructions.init_reward_manager (record { min_votes = min_votes }) in
      let (base, _) = get_base_address env program_id reward_manager in
      ok (record {
        program_id = program_id;
        accounts =
            writable reward_manager false
            ∷ writable token_account false
            ∷ readonly mint false
            ∷ readonly manager false
            ∷ readonly base false
            ∷ readonly env.spl_token_id false
            ∷ readonly env.sysvar_rent_id false
            ∷ [];
        bytes = env.instructions_borsh.serialize init_data;
      })

  unfoldable pub create_sender :
      (manager_account funder_account : Pubkey)
      → (eth_address operator : EthereumAddress) → Result ProgramError Instruction
  unfolding get_address_pair
  create_sender manager_account funder_account eth_address operator = do
    let create_data =
        Instructions.create_sender (record { eth_address = eth_address; operator = operator })
    pair ←
        map_err env.from_pubkey_error
          (get_address_pair env program_id reward_manager (sender_seed_prefix ++ eth_address))
    ok (record {
      program_id = program_id;
      accounts =
          readonly reward_manager false
          ∷ readonly manager_account true
          ∷ readonly pair.base.address false
          ∷ writable funder_account true
          ∷ writable pair.derive.address false
          ∷ readonly env.system_program_id false
          ∷ readonly env.sysvar_rent_id false
          ∷ [];
      bytes = env.instructions_borsh.serialize create_data;
    })

  unfoldable pub delete_sender :
      (manager_account refunder_account : Pubkey)
      → (eth_address : EthereumAddress) → Result ProgramError Instruction
  unfolding get_address_pair
  delete_sender manager_account refunder_account eth_address = do
    pair ←
        map_err env.from_pubkey_error
          (get_address_pair env program_id reward_manager (sender_seed_prefix ++ eth_address))
    ok (record {
      program_id = program_id;
      accounts =
          readonly reward_manager false
          ∷ readonly manager_account true
          ∷ writable pair.derive.address false
          ∷ writable refunder_account false
          ∷ readonly env.system_program_id false
          ∷ [];
      bytes = env.instructions_borsh.serialize Instructions.delete_sender;
    })

  unfoldable pub add_sender :
      (funder : Pubkey)
      → (eth_address operator : EthereumAddress) → (signers : List Pubkey)
      → Result ProgramError Instruction
  unfolding get_address_pair
  add_sender funder eth_address operator signers = do
    let add_data =
        Instructions.add_sender (record { eth_address = eth_address; operator = operator })
    pair ←
        map_err env.from_pubkey_error
          (get_address_pair env program_id reward_manager (sender_seed_prefix ++ eth_address))
    ok (record {
      program_id = program_id;
      accounts =
          readonly reward_manager false
          ∷ readonly pair.base.address false
          ∷ writable funder true
          ∷ writable pair.derive.address false
          ∷ readonly env.sysvar_instructions_id false
          ∷ readonly env.sysvar_rent_id false
          ∷ readonly env.system_program_id false
          ∷ map (λ (i : Pubkey). readonly i false) signers;
      bytes = env.instructions_borsh.serialize add_data;
    })

  unfoldable pub transfer :
      (recipient vault_token_account bot_oracle funder : Pubkey)
      → (senders : List Pubkey) → (params : Transfer) → Result ProgramError Instruction
  unfolding get_address_pair
  transfer recipient vault_token_account bot_oracle funder senders params = do
    transfer_acc_to_create ←
        map_err env.from_pubkey_error
          (get_address_pair env program_id reward_manager (transfer_seed_prefix ++ params.id))
    ok (record {
      program_id = program_id;
      accounts =
          readonly reward_manager false
          ∷ readonly transfer_acc_to_create.base.address false
          ∷ writable recipient false
          ∷ writable vault_token_account false
          ∷ readonly bot_oracle false
          ∷ writable funder true
          ∷ writable transfer_acc_to_create.derive.address false
          ∷ readonly env.sysvar_instructions_id false
          ∷ readonly env.spl_token_id false
          ∷ readonly env.system_program_id false
          ∷ map (λ (i : Pubkey). readonly i false) senders;
      bytes = env.instructions_borsh.serialize (Instructions.transfer params);
    })
