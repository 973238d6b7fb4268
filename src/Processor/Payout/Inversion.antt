-- ===== src/Processor/Payout/Inversion.antt =====
-- Every check that a successful `process_transfer` has passed, and the two calls that it then made.
use audius_reward_manager.Prelude.{
  ◌+◌, ◌≡◌, subst, List, [], ◌∷◌, ◌++◌, ◌==◌, ==_iff, length, not, not-eq_false, true,
}
use audius_reward_manager.Outcome.{ok, bind-eq_ok, return_if-eq_ok, map_err, map_err-eq_ok}
use audius_reward_manager.Error.{from, uninitialized_account, invalid_seeds, wrong_recipient_key}
use audius_reward_manager.State.{
  Pubkey, RewardManager, SenderAccount, is_initialized_manager, is_initialized_sender,
}
use audius_reward_manager.Instructions.{Transfer}
use audius_reward_manager.Runtime.{AccountInfo, Ledger, Env}
use audius_reward_manager.Consts.{
  sender_seed_prefix, transfer_seed_prefix, transfer_acc_balance, transfer_acc_space,
}
use audius_reward_manager.Utils.Address.{AddressPair, is_owner, get_address_pair}
use audius_reward_manager.Utils.Address.Owner.{is_owner-eq_ok}
use audius_reward_manager.Utils.Cpi.{token_transfer, create_account_with_seed}
use audius_reward_manager.Utils.Senders.Genuine.{IsGenuine}
use audius_reward_manager.Utils.Verify.{build_verify_secp_transfer}
use audius_reward_manager.Processor.Votes.{check_secp_signs}
use audius_reward_manager.Processor.Votes.Quorum.{Quorum, check_secp_signs-eq_ok}
use audius_reward_manager.Processor.Payout.{process_transfer}

module _ (env : Env) (program_id : Pubkey)
    (reward_manager reward_manager_authority recipient vault_token_account : AccountInfo)
    (bot_oracle funder transfer_acc_to_create instruction_info : AccountInfo)
    (transfer_data : Transfer) (senders : List AccountInfo) (w : Ledger) where
  pub record Payout (w' : Ledger) : Type 0 where
    pub manager : RewardManager
    pub manager_decoded :
        env.reward_manager_borsh.try_from_slice (w reward_manager.key).bytes ≡ ok manager
    pub manager_initialized : is_initialized_manager manager ≡ true
    pub manager_owned : (w reward_manager.key).owner ≡ program_id
    pub oracle : SenderAccount
    pub oracle_genuine : IsGenuine env program_id reward_manager.key w bot_oracle oracle
    pub transfer_pair : AddressPair
    pub transfer_derived :
        get_address_pair env program_id reward_manager.key
          (transfer_seed_prefix ++ transfer_data.id)
        ≡ ok transfer_pair
    pub transfer_key : transfer_pair.derive.address ≡ transfer_acc_to_create.key
    pub mint : Pubkey
    pub mint_unpacked : env.unpack_token_account_mint (w vault_token_account.key).bytes ≡ ok mint
    pub recipient_derived :
        env.claimable_address env.claimable_tokens_id mint transfer_data.eth_recipient
        ≡ ok recipient.key
    pub quorum :
        Quorum env program_id reward_manager instruction_info senders
          (length senders + 1)
          (build_verify_secp_transfer oracle transfer_data)
          w
    pub paid : Ledger
    pub pays :
        token_transfer env program_id reward_manager.key vault_token_account recipient
          reward_manager_authority transfer_data.amount w
        ≡ ok paid
    pub records :
        create_account_with_seed env program_id funder transfer_acc_to_create
          reward_manager_authority reward_manager.key
          (transfer_seed_prefix ++ transfer_data.id)
          transfer_acc_balance
          transfer_acc_space
          program_id
          paid
        ≡ ok w'

  pub process_transfer-eq_ok :
      {w' : Ledger}
      → process_transfer env program_id reward_manager reward_manager_authority recipient
          vault_token_account bot_oracle funder transfer_acc_to_create instruction_info
          transfer_data senders w
        ≡ ok w'
      → Payout w'
  unfolding process_transfer
  process_transfer-eq_ok {w'} h =
      let (manager, manager_decoded, h₁) =
        bind-eq_ok (env.reward_manager_borsh.try_from_slice (w reward_manager.key).bytes) _ h in
      let (manager_initialized, h₂) =
        return_if-eq_ok (not (is_initialized_manager manager)) uninitialized_account _ h₁ in
      let (oracle, oracle_decoded, h₃) =
        bind-eq_ok (env.sender_borsh.try_from_slice (w bot_oracle.key).bytes) _ h₂ in
      let (oracle_initialized, h₄) =
        return_if-eq_ok (not (is_initialized_sender oracle)) uninitialized_account _ h₃ in
      let (_, owned, h₅) =
        bind-eq_ok (is_owner program_id (reward_manager ∷ bot_oracle ∷ []) w) _ h₄ in
      let owners = is_owner-eq_ok program_id (reward_manager ∷ bot_oracle ∷ []) w owned in
      let (oracle_pair, oracle_derived, h₆) =
        bind-eq_ok
          (map_err env.from_pubkey_error (
            get_address_pair env program_id reward_manager.key
              (sender_seed_prefix ++ oracle.eth_address)))
          _ h₅ in
      let (oracle_key, h₇) =
        return_if-eq_ok (not (oracle_pair.derive.address == bot_oracle.key)) invalid_seeds _ h₆ in
      let (transfer_pair, transfer_derived, h₈) =
        bind-eq_ok
          (map_err env.from_pubkey_error (
            get_address_pair env program_id reward_manager.key
              (transfer_seed_prefix ++ transfer_data.id)))
          _ h₇ in
      let (transfer_key, h₉) =
        return_if-eq_ok (not (transfer_pair.derive.address == transfer_acc_to_create.key))
          invalid_seeds _ h₈ in
      let (mint, mint_unpacked, h₁₀) =
        bind-eq_ok (env.unpack_token_account_mint (w vault_token_account.key).bytes) _ h₉ in
      let (address, recipient_derived, h₁₁) =
        bind-eq_ok
          (map_err env.from_pubkey_error
            (env.claimable_address env.claimable_tokens_id mint transfer_data.eth_recipient))
          _ h₁₀ in
      let (recipient_key, h₁₂) =
        return_if-eq_ok (not (address == recipient.key)) (from wrong_recipient_key) _ h₁₁ in
      let (_, checked, h₁₃) =
        bind-eq_ok
          (check_secp_signs env program_id reward_manager instruction_info senders
            (length senders + 1) (build_verify_secp_transfer oracle transfer_data) w)
          _ h₁₂ in
      let (paid, pays, records) =
        bind-eq_ok
          (token_transfer env program_id reward_manager.key vault_token_account recipient
            reward_manager_authority transfer_data.amount w)
          _ h₁₃ in
      record {
        manager = manager;
        manager_decoded = manager_decoded;
        manager_initialized = not-eq_false _ manager_initialized;
        manager_owned = owners.0;
        oracle = oracle;
        oracle_genuine = record {
          decoded = oracle_decoded;
          initialized = not-eq_false _ oracle_initialized;
          owned = owners.1.0;
          derived = (
            oracle_pair,
            map_err-eq_ok env.from_pubkey_error _ oracle_derived,
            (==_iff _ _).0 (not-eq_false _ oracle_key),
          );
        };
        transfer_pair = transfer_pair;
        transfer_derived = map_err-eq_ok env.from_pubkey_error _ transfer_derived;
        transfer_key = (==_iff _ _).0 (not-eq_false _ transfer_key);
        mint = mint;
        mint_unpacked = mint_unpacked;
        recipient_derived =
            subst
              (λ k.
                env.claimable_address env.claimable_tokens_id mint transfer_data.eth_recipient
                ≡ ok k)
              ((==_iff _ _).0 (not-eq_false _ recipient_key))
              (map_err-eq_ok env.from_pubkey_error _ recipient_derived);
        quorum =
            check_secp_signs-eq_ok env program_id reward_manager instruction_info senders _ _ w
              checked;
        paid = paid;
        pays = pays;
        records = records;
      }
