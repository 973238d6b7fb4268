-- ===== src/Processor/Payout/Pays.antt =====
-- When `process_transfer` pays.
use audius_reward_manager.Prelude.{◌+◌, ◌≡◌, List, ◌++◌, ==_refl, length, true}
use audius_reward_manager.Outcome.{ok, ◌>>=◌, return_if, map_err}
use audius_reward_manager.State.{Pubkey, RewardManager, SenderAccount, is_initialized_manager}
use audius_reward_manager.Instructions.{Transfer}
use audius_reward_manager.Runtime.{AccountInfo, Ledger, Env}
use audius_reward_manager.Consts.{transfer_seed_prefix, transfer_acc_balance, transfer_acc_space}
use audius_reward_manager.Utils.Address.{AddressPair, is_owner, get_address_pair}
use audius_reward_manager.Utils.Cpi.{token_transfer, create_account_with_seed}
use audius_reward_manager.Utils.Senders.Genuine.{IsGenuine}
use audius_reward_manager.Utils.Verify.{build_verify_secp_transfer}
use audius_reward_manager.Processor.Votes.{check_secp_signs}
use audius_reward_manager.Processor.Payout.{process_transfer}

module _ (env : Env) (program_id : Pubkey)
    (reward_manager reward_manager_authority recipient vault_token_account : AccountInfo)
    (bot_oracle funder transfer_acc_to_create instruction_info : AccountInfo)
    (transfer_data : Transfer) (senders : List AccountInfo) (w : Ledger) where
  -- The accounts are those of the reward: an initialised reward manager of the program, the genuine
  -- account `oracle`, the address that the id derives, and the claimable address of the recipient.
  pub record IsPayable (oracle : SenderAccount) : Type 0 where
    pub manager : RewardManager
    pub manager_decoded :
        env.reward_manager_borsh.try_from_slice (w reward_manager.key).bytes ≡ ok manager
    pub manager_initialized : is_initialized_manager manager ≡ true
    pub manager_owned : (w reward_manager.key).owner ≡ program_id
    pub oracle_genuine : IsGenuine env program_id reward_manager.key w bot_oracle oracle
    pub transfer_pair : AddressPair
    pub transfer_derived :
        get_address_pair env program_id reward_manager.key
          (transfer_seed_prefix ++ transfer_data.id)
        ≡ ok transfer_pair
    pub transfer_key : transfer_pair.derive.address ≡ transfer_acc_to_create.key
    pub mint : Pubkey
    pub mint_unpacked : env.unpack_token_account_mint (w vault_token_account.key).bytes ≡ ok mint
    pub recipient_derived :
        env.claimable_address env.claimable_tokens_id mint transfer_data.eth_recipient
        ≡ ok recipient.key

  -- With the accounts of the reward, what a transfer does is up to the vote: after its error, or its
  -- panic, nothing is called, and if it passes, the tokens are transferred and then the record of
  -- the reward is created.
  pub process_transfer-IsPayable :
      {oracle : SenderAccount}
      → IsPayable oracle
      → process_transfer env program_id reward_manager reward_manager_authority recipient
          vault_token_account bot_oracle funder transfer_acc_to_create instruction_info
          transfer_data senders w
        ≡ (check_secp_signs env program_id reward_manager instruction_info senders
              (length senders + 1)
              (build_verify_secp_transfer oracle transfer_data)
              w
            >>= λ _.
                token_transfer env program_id reward_manager.key vault_token_account recipient
                  reward_manager_authority transfer_data.amount w
                >>= λ paid.
                    create_account_with_seed env program_id funder transfer_acc_to_create
                      reward_manager_authority reward_manager.key
                      (transfer_seed_prefix ++ transfer_data.id)
                      transfer_acc_balance
                      transfer_acc_space
                      program_id
                      paid)
  unfolding process_transfer is_owner ◌>>=◌ return_if map_err
  process_transfer-IsPayable {oracle} p = rw (
    p.manager_decoded,
    p.manager_initialized,
    p.oracle_genuine.decoded,
    p.oracle_genuine.initialized,
    p.manager_owned,
    p.oracle_genuine.owned,
    ==_refl program_id,
    p.oracle_genuine.derived.1,
    p.oracle_genuine.derived.2,
    ==_refl bot_oracle.key,
    p.transfer_derived,
    p.transfer_key,
    ==_refl transfer_acc_to_create.key,
    p.mint_unpacked,
    p.recipient_derived,
    ==_refl recipient.key,
  )
