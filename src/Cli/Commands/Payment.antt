-- ===== src/Cli/Commands/Payment.antt =====
-- What the transaction of `command_transfer` does on the chain.
use audius_reward_manager.Prelude.{
  ℕ, refl, Bytes, some, true, ◌+◌, ◌<◌, ◌≤◌, ◌≡◌, ◌^◌, subst, sym, ◌∙◌, [], ◌∷◌, ◌++◌, append_assoc,
  length, contains, false, List,
}
use audius_reward_manager.Outcome.{◌>>=◌, ok, ok-injective, bind-ok}
use audius_reward_manager.State.{is_initialized_manager, Pubkey, EthereumAddress}
use audius_reward_manager.Instructions.{Instructions, Transfer}
use audius_reward_manager.Instructions.Builders.{readonly, writable}
use audius_reward_manager.Instructions.Builders.Agreement.{
  account_info, account_infos, accounts_of, IsReadBack, transfer-submit,
}
use audius_reward_manager.Runtime.{AccountInfo, Instruction, Ledger, Env}
use audius_reward_manager.Consts.{transfer_seed_prefix, transfer_acc_balance, transfer_acc_space}
use audius_reward_manager.Utils.Address.{AddressPair, get_address_pair}
use audius_reward_manager.Utils.Cpi.{token_transfer, create_account_with_seed}
use audius_reward_manager.Utils.Secp.Complete.{secp_only}
use audius_reward_manager.Utils.Verify.{
  bot_oracle_message, senders_message, build_verify_secp_transfer,
}
use audius_reward_manager.Processor.Dispatch.{process_instruction}
use audius_reward_manager.Processor.Votes.Accepts.{Election}
use audius_reward_manager.Processor.Payout.Pays.{IsPayable, process_transfer-IsPayable}
use audius_reward_manager.Cli.Client.{Text, Client, HasSizes}
use audius_reward_manager.Cli.Transaction.{Config, OnchainTransaction}
use audius_reward_manager.Cli.Signing.Votes.{addresses_of_keys, sign_message-transfer}
use audius_reward_manager.Cli.Commands.{Accounts, command_transfer, read_accounts}
use audius_reward_manager.Cli.Commands.Plan.{
  SigningPlan, AccountsPlan, reward_of, read_accounts-eq_ok, sign_transfer-SendingPlan,
}
use audius_reward_manager.Utils.Senders.Genuine.{IsGenuine}

module _ (env : Env) (client : Client) (sizes : HasSizes client) (config : Config)
    (id reward_manager bot_oracle : Pubkey) (a : Accounts) (w : Ledger) where
  -- The instructions before the transfer hold an honest vote: at least `min_votes` genuine senders,
  -- in the order of their keys, who are not the oracle, and with none of whom it shares an operator.
  pub record IsHonest {bot_oracle_secret senders_secrets : Text} {t : Transfer}
      (s : SigningPlan env client config id bot_oracle_secret senders_secrets t a) : Type 0 where
    pub senders_message_fits : length (senders_message t a.bot_oracle_data.eth_address) < 2 ^ 16
    pub oracle_message_fits : length (bot_oracle_message t) < 2 ^ 16
    pub few : length s.secrets ≤ 256
    pub oracle_key :
        client.construct_eth_pubkey (client.from_secret_key s.oracle_secret)
        ≡ a.bot_oracle_data.eth_address
    pub stranger :
        contains (addresses_of_keys env client sizes s.secrets) a.bot_oracle_data.eth_address
        ≡ false
    pub foreign : secp_only env (w env.sysvar_instructions_id).bytes a.instructions ≡ []
    pub operators : List EthereumAddress
    pub apart : contains operators a.bot_oracle_data.operator ≡ false
    pub election :
        Election env id
          (account_info (readonly reward_manager false))
          (account_info (readonly env.sysvar_instructions_id false))
          (accounts_of s.senders)
          (length (accounts_of s.senders) + 1)
          (build_verify_secp_transfer a.bot_oracle_data t)
          w
          ((a.instructions ++ s.signed) ++ s.oracle_signed ∷ [])
          (addresses_of_keys env client sizes s.secrets)
          operators

  -- The ledger has the reward manager, the oracle and the vault as the cluster answered them, with an
  -- initialised reward manager of the program and a genuine oracle.
  pub record IsReady : Type 0 where
    pub manager_answered : client.get_account_data reward_manager ≡ ok (w reward_manager).bytes
    pub vault_answered :
        client.get_account_data a.reward_manager_data.token_account
        ≡ ok (w a.reward_manager_data.token_account).bytes
    pub manager_initialized : is_initialized_manager a.reward_manager_data ≡ true
    pub manager_owned : (w reward_manager).owner ≡ id
    pub oracle_genuine :
        IsGenuine env id reward_manager w
          (account_info (readonly bot_oracle false))
          a.bot_oracle_data

  -- What the cluster answers is there.
  answered :
      (k : Pubkey) {d d' : Bytes}
      → client.get_account_data k ≡ ok d
      → client.get_account_data k ≡ ok d'
      → d ≡ d'
  answered k h h' = ok-injective (sym h ∙ h')

  -- The accounts that the client reads are those that the program asks for.
  ready-IsPayable :
      (eth_address_recipient transfer_id : Text) (amount : ℕ) (pair : AddressPair)
      → AccountsPlan env client config id reward_manager bot_oracle eth_address_recipient a
      → get_address_pair env id reward_manager (transfer_seed_prefix ++ transfer_id) ≡ ok pair
      → IsReady
      → (senders : List AccountInfo)
      → IsPayable env id
          (account_info (readonly reward_manager false))
          (account_info (readonly pair.base.address false))
          (account_info (writable a.claimable_token_acc false))
          (account_info (writable a.reward_manager_data.token_account false))
          (account_info (readonly bot_oracle false))
          (account_info (writable config.fee_payer true))
          (account_info (writable pair.derive.address false))
          (account_info (readonly env.sysvar_instructions_id false))
          (reward_of transfer_id amount a)
          senders
          w
          a.bot_oracle_data
  ready-IsPayable eth_address_recipient transfer_id amount pair plan derived ready senders =
      record {
        manager = a.reward_manager_data;
        manager_decoded =
            subst (λ d. env.reward_manager_borsh.try_from_slice d ≡ ok a.reward_manager_data)
              (answered reward_manager plan.manager_loaded ready.manager_answered)
              plan.manager_decoded;
        manager_initialized = ready.manager_initialized;
        manager_owned = ready.manager_owned;
        oracle_genuine = ready.oracle_genuine;
        transfer_pair = pair;
        transfer_derived = derived;
        transfer_key = refl;
        mint = plan.mint;
        mint_unpacked =
            subst (λ d. env.unpack_token_account_mint d ≡ ok plan.mint)
              (answered a.reward_manager_data.token_account plan.vault_loaded ready.vault_answered)
              plan.mint_unpacked;
        recipient_derived = plan.recipient_derived;
      }

  -- The client and the program work together. For a transaction that `command_transfer` gives, with
  -- the accounts that it reads from the cluster and what the keys sign: where the id derives the
  -- pair, the program reads back what the client wrote, the ledger has the reward manager and the
  -- vault as the cluster answered them, an initialised reward manager of the program and a genuine
  -- oracle, and the instructions before the last one hold an honest vote, the last instruction of the
  -- transaction, run by the program with its accounts, transfers the tokens to the recipient's
  -- account and then creates the record of the reward, paid by the fee payer.
  pub command_transfer_pays :
      (bot_oracle_secret senders_secrets transfer_id eth_address_recipient : Text) (amount : ℕ)
      {tx : OnchainTransaction} (pair : AddressPair)
      → command_transfer env client config id reward_manager bot_oracle bot_oracle_secret
          senders_secrets transfer_id eth_address_recipient amount
        ≡ ok (some tx)
      → read_accounts env client config id reward_manager bot_oracle eth_address_recipient ≡ ok a
      → (s : SigningPlan env client config id bot_oracle_secret senders_secrets
          (reward_of transfer_id amount a)
          a)
      → get_address_pair env id reward_manager (transfer_seed_prefix ++ transfer_id) ≡ ok pair
      → IsReadBack env id reward_manager w (Instructions.transfer (reward_of transfer_id amount a))
      → IsReady
      → IsHonest s
      → (last : Instruction) × (tx.instructions
          ≡ ((a.instructions ++ s.signed) ++ s.oracle_signed ∷ []) ++ last ∷ [])
        × (process_instruction env id (account_infos last) last.bytes w ≡ (
            token_transfer env id reward_manager
              (account_info (writable a.reward_manager_data.token_account false))
              (account_info (writable a.claimable_token_acc false))
              (account_info (readonly pair.base.address false))
              amount
              w
            >>= λ paid.
                create_account_with_seed env id
                  (account_info (writable config.fee_payer true))
                  (account_info (writable pair.derive.address false))
                  (account_info (readonly pair.base.address false))
                  reward_manager
                  (transfer_seed_prefix ++ transfer_id)
                  transfer_acc_balance
                  transfer_acc_space
                  id
                  paid))
  unfolding command_transfer
  command_transfer_pays bot_oracle_secret senders_secrets transfer_id eth_address_recipient amount
        pair sent found s derived read ready honest =
      let t = reward_of transfer_id amount a in
      let sending =
        sign_transfer-SendingPlan env client config id reward_manager bot_oracle bot_oracle_secret
          senders_secrets transfer_id amount a (sym (bind-ok _ found) ∙ sent) s in
      let payable =
        ready-IsPayable eth_address_recipient transfer_id amount pair
          (read_accounts-eq_ok env client config id reward_manager bot_oracle eth_address_recipient
            found)
          derived ready (accounts_of s.senders) in
      let passes =
        sign_message-transfer env client sizes id (account_info (readonly reward_manager false))
          (account_info (readonly env.sysvar_instructions_id false)) (accounts_of s.senders) w
          a.bot_oracle_data t s.secrets s.oracle_secret _ honest.operators a.instructions
          honest.senders_message_fits honest.oracle_message_fits honest.few honest.oracle_key
          honest.stranger honest.apart honest.foreign s.signed_lem s.oracle_signed_lem
          (subst
            (λ (before : List Instruction).
              Election env id (account_info (readonly reward_manager false))
                (account_info (readonly env.sysvar_instructions_id false)) (accounts_of s.senders)
                (length (accounts_of s.senders) + 1)
                (build_verify_secp_transfer a.bot_oracle_data t) w before
                (addresses_of_keys env client sizes s.secrets) honest.operators)
            (append_assoc a.instructions s.signed (s.oracle_signed ∷ [])) honest.election) in
      (
        sending.last,
        sending.instructions_lem,
        sym (bind-ok _ sending.built)
            ∙ transfer-submit env id reward_manager w a.claimable_token_acc
                a.reward_manager_data.token_account bot_oracle config.fee_payer s.senders t pair
                read derived
            ∙ process_transfer-IsPayable env id _ _ _ _ _ _ _ _ t _ w payable
            ∙ bind-ok _ passes,
      )
