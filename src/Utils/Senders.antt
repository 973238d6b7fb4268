-- ===== src/Utils/Senders.antt =====
-- program/src/utils.rs: `get_eth_addresses`, the accounts that vouch.
pub mod Genuine
pub mod Complete
use audius_reward_manager.Prelude.{List, [], ◌∷◌, ◌++◌, ◌==◌, not, contains, set_insert}
use audius_reward_manager.Outcome.{Result, ok, ◌>>=◌, ◌>>◌, return_if, map_err}
use audius_reward_manager.Error.{
  ProgramError, from, uninitialized_account, invalid_seeds, repeated_senders, operator_collision,
}
use audius_reward_manager.State.{Pubkey, EthereumAddress, SenderAccount, is_initialized_sender}
use audius_reward_manager.Runtime.{AccountInfo, Ledger, Env}
use audius_reward_manager.Consts.{sender_seed_prefix}
use audius_reward_manager.Utils.Address.{is_owner, get_address_pair}

module _ (env : Env) (program_id reward_manager_key : Pubkey) (w : Ledger) where
  -- The checks on one signer before it is compared with those before it.
  unfoldable pub load_signer : AccountInfo → Result ProgramError SenderAccount
  unfolding is_owner get_address_pair is_initialized_sender
  load_signer signer = do
    signer_data ← env.sender_borsh.try_from_slice (w signer.key).bytes
    return_if (not (is_initialized_sender signer_data)) uninitialized_account
    is_owner program_id (signer ∷ []) w
    generated_sender_key ← map_err env.from_pubkey_error (
        get_address_pair env program_id reward_manager_key
          (sender_seed_prefix ++ signer_data.eth_address))
    return_if (not (generated_sender_key.derive.address == signer.key)) invalid_seeds
    ok signer_data

  -- The loop over `signers`, with the addresses and the operators so far.
  unfoldable pub collect_senders :
      List AccountInfo
      → List EthereumAddress
      → List EthereumAddress
      → Result ProgramError (List EthereumAddress × List EthereumAddress)
  collect_senders [] senders_eth_addresses operators = ok (senders_eth_addresses, operators)
  collect_senders (signer ∷ signers) senders_eth_addresses operators = do
    signer_data ← load_signer signer
    return_if (contains senders_eth_addresses signer_data.eth_address) (from repeated_senders)
    let (is_new, operators') = set_insert operators signer_data.operator
    return_if (not is_new) (from operator_collision)
    collect_senders signers (senders_eth_addresses ++ signer_data.eth_address ∷ []) operators'

  unfoldable pub get_eth_addresses :
      List AccountInfo → Result ProgramError (List EthereumAddress × List EthereumAddress)
  unfolding collect_senders load_signer
  get_eth_addresses signers = collect_senders signers [] []
