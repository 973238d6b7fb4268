-- ===== src/Processor/Payout.antt =====
-- program/src/processor.rs: `process_transfer`, the payout of one reward.
pub mod Authorised
pub mod Inversion
pub mod Pays
pub mod Forged
use audius_reward_manager.Prelude.{◌+◌, List, [], ◌∷◌, ◌++◌, ◌==◌, length, not}
use audius_reward_manager.Outcome.{Result, ◌>>=◌, ◌>>◌, return_if, map_err}
use audius_reward_manager.Error.{
  ProgramError, from, uninitialized_account, invalid_seeds, wrong_recipient_key,
}
use audius_reward_manager.State.{Pubkey, is_initialized_manager, is_initialized_sender}
use audius_reward_manager.Instructions.{Transfer}
use audius_reward_manager.Runtime.{AccountInfo, Ledger, Env}
use audius_reward_manager.Consts.{
  sender_seed_prefix, transfer_seed_prefix, transfer_acc_balance, transfer_acc_space,
}
use audius_reward_manager.Utils.Address.{is_owner, get_address_pair}
use audius_reward_manager.Utils.Cpi.{token_transfer, create_account_with_seed}
use audius_reward_manager.Utils.Verify.{build_verify_secp_transfer}
use audius_reward_manager.Processor.Votes.{check_secp_signs}

module _ (env : Env) where
  unfoldable pub process_transfer :
      Pubkey
      → (reward_manager reward_manager_authority recipient vault_token_account : AccountInfo)
      → (bot_oracle funder transfer_acc_to_create instruction_info : AccountInfo) → Transfer
      → List AccountInfo
      → Ledger
      → Result ProgramError Ledger
  unfolding get_address_pair is_initialized_manager is_initialized_sender is_owner
  process_transfer program_id reward_manager reward_manager_authority recipient vault_token_account
        bot_oracle funder transfer_acc_to_create instruction_info transfer_data senders w =
      do
        reward_manager_data ← env.reward_manager_borsh.try_from_slice (w reward_manager.key).bytes
        return_if (not (is_initialized_manager reward_manager_data)) uninitialized_account
        bot_oracle_data ← env.sender_borsh.try_from_slice (w bot_oracle.key).bytes
        return_if (not (is_initialized_sender bot_oracle_data)) uninitialized_account
        is_owner program_id (reward_manager ∷ bot_oracle ∷ []) w
        generated_bot_oracle_key ← map_err env.from_pubkey_error (
            get_address_pair env program_id reward_manager.key
              (sender_seed_prefix ++ bot_oracle_data.eth_address))
        return_if (not (generated_bot_oracle_key.derive.address == bot_oracle.key)) invalid_seeds
        generated_transfer_acc_to_create ← map_err env.from_pubkey_error (
            get_address_pair env program_id reward_manager.key
              (transfer_seed_prefix ++ transfer_data.id))
        return_if
            (not (generated_transfer_acc_to_create.derive.address == transfer_acc_to_create.key))
            invalid_seeds
        vault_mint ← env.unpack_token_account_mint (w vault_token_account.key).bytes
        generated_recipient_key ←
            map_err env.from_pubkey_error
              (env.claimable_address env.claimable_tokens_id vault_mint transfer_data.eth_recipient)
        return_if (not (generated_recipient_key == recipient.key)) (from wrong_recipient_key)
        let verifier = build_verify_secp_transfer bot_oracle_data transfer_data
        check_secp_signs env program_id reward_manager instruction_info senders (length senders + 1)
            verifier w
        w' ←
            token_transfer env program_id reward_manager.key vault_token_account recipient
              reward_manager_authority transfer_data.amount w
        create_account_with_seed env program_id funder transfer_acc_to_create
            reward_manager_authority reward_manager.key (transfer_seed_prefix ++ transfer_data.id)
            transfer_acc_balance transfer_acc_space program_id w'
