-- ===== src/Processor/Init.antt =====
-- program/src/processor.rs: `process_init_instruction`.
pub mod Once
use audius_reward_manager.Prelude.{ℕ, [], ◌∷◌, ◌==◌, not}
use audius_reward_manager.Outcome.{Result, ◌>>=◌, ◌>>◌, return_if}
use audius_reward_manager.Error.{ProgramError, account_already_initialized, invalid_account_data}
use audius_reward_manager.State.{Pubkey, new_reward_manager, is_initialized_manager}
use audius_reward_manager.Runtime.{AccountInfo, Ledger, Env}
use audius_reward_manager.Utils.Address.{get_base_address}
use audius_reward_manager.Processor.Accounts.{write_data}

module _ (env : Env) where
  unfoldable pub process_init_instruction :
      Pubkey
      → (reward_manager_info token_account_info mint_info manager_info : AccountInfo)
      → (authority_info spl_token_info rent : AccountInfo) → ℕ
      → Ledger
      → Result ProgramError Ledger
  unfolding get_base_address is_initialized_manager write_data
  process_init_instruction program_id reward_manager_info token_account_info mint_info manager_info
        authority_info spl_token_info rent min_votes w =
      do
        reward_manager ← env.reward_manager_borsh.try_from_slice (w reward_manager_info.key).bytes
        return_if (is_initialized_manager reward_manager) account_already_initialized
        let (base, _) = get_base_address env program_id reward_manager_info.key
        return_if (not (base == authority_info.key)) invalid_account_data
        ix ← env.initialize_account env.spl_token_id token_account_info.key mint_info.key base
        w' ←
            env.invoke ix
              (spl_token_info ∷ token_account_info ∷ mint_info ∷ authority_info ∷ rent ∷ []) w
        write_data env reward_manager_info.key
            (env.reward_manager_borsh.serialize
              (new_reward_manager token_account_info.key manager_info.key min_votes))
            w'
