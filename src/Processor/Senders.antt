-- ===== src/Processor/Senders.antt =====
-- program/src/processor.rs: the handlers that create, delete and add a sender.
pub mod Deletion
pub mod Addition
pub mod Creation
pub mod Accepted
pub mod Added
pub mod Managed
use audius_reward_manager.Prelude.{List, [], ◌∷◌, ◌++◌, ◌==◌, length, not}
use audius_reward_manager.Outcome.{Result, ◌>>=◌, ◌>>◌, return_if, map_err}
use audius_reward_manager.Error.{
  ProgramError, from, missing_required_signature, uninitialized_account, incorect_manager_account,
  incorect_sender_account, wrong_reward_manager_key,
}
use audius_reward_manager.State.{
  Pubkey, EthereumAddress, is_initialized_manager, new_sender_account, sender_account_len,
}
use audius_reward_manager.Runtime.{AccountInfo, Ledger, Env}
use audius_reward_manager.Consts.{sender_seed_prefix}
use audius_reward_manager.Utils.Address.{get_address_pair}
use audius_reward_manager.Utils.Verify.{build_verify_secp_add_sender}
use audius_reward_manager.Processor.Accounts.{write_data, transfer_all}
use audius_reward_manager.Processor.Votes.{check_secp_signs}

module _ (env : Env) where
  unfoldable pub process_create_sender :
      Pubkey
      → EthereumAddress
      → EthereumAddress
      → (reward_manager_info manager_account_info authority_info funder_account_info : AccountInfo)
      → (sender_info sys_prog_info rent_info : AccountInfo) → Ledger
      → Result ProgramError Ledger
  unfolding get_address_pair is_initialized_manager write_data
  process_create_sender program_id eth_address operator reward_manager_info manager_account_info
        authority_info funder_account_info sender_info sys_prog_info rent_info w =
      do
        return_if (not manager_account_info.is_signer) missing_required_signature
        reward_manager ← env.reward_manager_borsh.try_from_slice (w reward_manager_info.key).bytes
        return_if (not (is_initialized_manager reward_manager)) uninitialized_account
        return_if (not (reward_manager.manager == manager_account_info.key))
            (from incorect_manager_account)
        pair ← map_err env.from_pubkey_error (
            get_address_pair env program_id reward_manager_info.key
              (sender_seed_prefix ++ eth_address))
        return_if (not (sender_info.key == pair.derive.address)) (from incorect_sender_account)
        rent ← env.rent_from_account_info rent_info.key (w rent_info.key)
        w' ←
            env.invoke_signed
              (env.create_account_with_seed_ix funder_account_info.key sender_info.key
                pair.base.address pair.derive.seed (env.minimum_balance rent sender_account_len)
                sender_account_len program_id)
              (funder_account_info ∷ sender_info ∷ authority_info ∷ [])
              ((reward_manager_info.key ∷ (pair.base.seed ∷ []) ∷ []) ∷ []) w
        write_data env sender_info.key
            (env.sender_borsh.serialize
              (new_sender_account reward_manager_info.key eth_address operator))
            w'

  unfoldable pub process_delete_sender :
      Pubkey
      → (reward_manager_info manager_account_info sender_info refunder_account_info : AccountInfo)
      → AccountInfo
      → Ledger
      → Result ProgramError Ledger
  unfolding transfer_all
  process_delete_sender program_id reward_manager_info manager_account_info sender_info
        refunder_account_info sys_prog w =
      do
        return_if (not manager_account_info.is_signer) missing_required_signature
        sender ← env.sender_borsh.try_from_slice (w sender_info.key).bytes
        return_if (not (sender.reward_manager == reward_manager_info.key))
            (from wrong_reward_manager_key)
        reward_manager ← env.reward_manager_borsh.try_from_slice (w reward_manager_info.key).bytes
        return_if (not (reward_manager.manager == manager_account_info.key))
            (from incorect_manager_account)
        transfer_all sender_info refunder_account_info w

  unfoldable pub process_add_sender :
      Pubkey
      → (reward_manager_info authority_info funder_info new_sender_info : AccountInfo)
      → (instructions_info rent_info : AccountInfo) → List AccountInfo
      → EthereumAddress
      → EthereumAddress
      → Ledger
      → Result ProgramError Ledger
  unfolding get_address_pair is_initialized_manager write_data
  process_add_sender program_id reward_manager_info authority_info funder_info new_sender_info
        instructions_info rent_info signers_info eth_address operator w =
      do
        reward_manager ← env.reward_manager_borsh.try_from_slice (w reward_manager_info.key).bytes
        return_if (not (is_initialized_manager reward_manager)) uninitialized_account
        let verifier = build_verify_secp_add_sender reward_manager_info.key eth_address
        check_secp_signs env program_id reward_manager_info instructions_info signers_info
            (length signers_info) verifier w
        pair ← map_err env.from_pubkey_error (
            get_address_pair env program_id reward_manager_info.key
              (sender_seed_prefix ++ eth_address))
        rent ← env.rent_from_account_info rent_info.key (w rent_info.key)
        w' ←
            env.invoke_signed
              (env.create_account_with_seed_ix funder_info.key pair.derive.address pair.base.address
                pair.derive.seed (env.minimum_balance rent sender_account_len) sender_account_len
                program_id)
              (funder_info ∷ new_sender_info ∷ authority_info ∷ [])
              ((reward_manager_info.key ∷ (pair.base.seed ∷ []) ∷ []) ∷ []) w
        write_data env new_sender_info.key
            (env.sender_borsh.serialize
              (new_sender_account reward_manager_info.key eth_address operator))
            w'
