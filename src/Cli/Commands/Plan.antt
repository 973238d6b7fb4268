-- ===== src/Cli/Commands/Plan.antt =====
-- What the transaction of a command holds, and that what is signed is what the program expects.
use audius_reward_manager.Prelude.{
  ℕ, ◌≡◌, subst, sym, ap, ◌∙◌, List, [], ◌∷◌, ◌++◌, Bytes, length, some, ◌%◌, ◌^◌,
}
use audius_reward_manager.Outcome.{ok-injective, Result, ok, bind-eq_ok, bind-ok, map_err-eq_ok}
use audius_reward_manager.State.{Pubkey}
use audius_reward_manager.Instructions.{Transfer}
use audius_reward_manager.Instructions.Builders.{transfer}
use audius_reward_manager.Runtime.{Instruction, Env}
use audius_reward_manager.Utils.Verify.{bot_oracle_message, senders_message}
use audius_reward_manager.Cli.Client.{Error, Text, SecretKey, SenderData, Client}
use audius_reward_manager.Cli.Signing.{new_secp256k1_instruction_2_0, sign_message}
use audius_reward_manager.Cli.Transaction.{Config, OnchainTransaction}
use audius_reward_manager.Cli.Commands.Signed.{expect-eq_ok, sign-eq_ok}
use audius_reward_manager.Cli.Commands.{
  sign_transfer, Accounts, read_accounts, expect, read_keys, command_transfer, create_recipient,
}

-- The reward that the arguments ask for.
abbrev pub reward_of : (transfer_id : Text) → (amount : ℕ) → Accounts → Transfer
reward_of transfer_id amount a = record {
  amount = amount;
  id = transfer_id;
  eth_recipient = a.decoded_recipient_address;
}

module _ (env : Env) (client : Client) (config : Config) (id : Pubkey) where
  -- The accounts for a transfer. The reward manager, the oracle and the vault are read from the
  -- cluster, the recipient is the address that was asked for, the tokens go to the claimable address
  -- of the recipient for the mint of the vault, and there is an instruction to create this account
  -- if the cluster has none.
  pub record AccountsPlan (reward_manager bot_oracle : Pubkey) (eth_address_recipient : Text)
      (a : Accounts) : Type 0 where
    pub manager_bytes : Bytes
    pub manager_loaded : client.get_account_data reward_manager ≡ ok manager_bytes
    pub manager_decoded :
        env.reward_manager_borsh.try_from_slice manager_bytes ≡ ok a.reward_manager_data
    pub oracle_bytes : Bytes
    pub oracle_loaded : client.get_account_data bot_oracle ≡ ok oracle_bytes
    pub oracle_decoded : env.sender_borsh.try_from_slice oracle_bytes ≡ ok a.bot_oracle_data
    pub recipient : client.from_hex 20 eth_address_recipient ≡ ok a.decoded_recipient_address
    pub vault_bytes : Bytes
    pub vault_loaded : client.get_account_data a.reward_manager_data.token_account ≡ ok vault_bytes
    pub mint : Pubkey
    pub mint_unpacked : env.unpack_token_account_mint vault_bytes ≡ ok mint
    pub recipient_derived :
        env.claimable_address env.claimable_tokens_id mint a.decoded_recipient_address
        ≡ ok a.claimable_token_acc
    pub recipient_created :
        create_recipient env client config id a.claimable_token_acc mint a.decoded_recipient_address
        ≡ ok a.instructions

  pub read_accounts-eq_ok :
      (reward_manager bot_oracle : Pubkey) (eth_address_recipient : Text) {a : Accounts}
      → read_accounts env client config id reward_manager bot_oracle eth_address_recipient ≡ ok a
      → AccountsPlan reward_manager bot_oracle eth_address_recipient a
  unfolding read_accounts
  read_accounts-eq_ok reward_manager bot_oracle eth_address_recipient {a} h =
      let (manager_bytes, manager_loaded, h₁) = bind-eq_ok _ _ h in
      let (manager, manager_decoded, h₂) = bind-eq_ok _ _ h₁ in
      let (oracle_bytes, oracle_loaded, h₃) = bind-eq_ok _ _ h₂ in
      let (oracle, oracle_decoded, h₄) = bind-eq_ok _ _ h₃ in
      let (address, decoded, h₅) = bind-eq_ok _ _ h₄ in
      let (vault_bytes, vault_loaded, h₆) = bind-eq_ok _ _ h₅ in
      let (mint, mint_unpacked, h₇) = bind-eq_ok _ _ h₆ in
      let (recipient, derived, h₈) = bind-eq_ok _ _ h₇ in
      let (instructions, created, h₉) = bind-eq_ok _ _ h₈ in
      subst (AccountsPlan reward_manager bot_oracle eth_address_recipient) (ok-injective h₉)
        (record {
          manager_bytes = manager_bytes;
          manager_loaded = manager_loaded;
          manager_decoded = map_err-eq_ok _ _ manager_decoded;
          oracle_bytes = oracle_bytes;
          oracle_loaded = oracle_loaded;
          oracle_decoded = map_err-eq_ok _ _ oracle_decoded;
          recipient = expect-eq_ok _ decoded;
          vault_bytes = vault_bytes;
          vault_loaded = vault_loaded;
          mint = mint;
          mint_unpacked = map_err-eq_ok _ _ mint_unpacked;
          recipient_derived = map_err-eq_ok _ _ derived;
          recipient_created = created;
        })

  -- What the keys sign for a reward: the senders' keys the message that the program expects of the
  -- senders, and the oracle's key its own, with the position of this signature as index.
  pub record SigningPlan (bot_oracle_secret senders_secrets : Text) (params : Transfer)
      (a : Accounts) : Type 0 where
    pub rows : List (Result Error SenderData)
    pub rows_read : client.read_rows senders_secrets ≡ ok rows
    pub senders : List Pubkey
    pub secrets : List SecretKey
    pub keys_read : read_keys env client config id rows ≡ ok (senders, secrets)
    pub signed : List Instruction
    pub signed_lem :
        sign_message env client (senders_message params a.bot_oracle_data.eth_address) secrets
        ≡ ok signed
    pub secret_bytes : Bytes
    pub secret_decoded : client.from_hex 32 bot_oracle_secret ≡ ok secret_bytes
    pub oracle_secret : SecretKey
    pub secret_parsed : client.parse_secret_key secret_bytes ≡ ok oracle_secret
    pub oracle_signed : Instruction
    pub oracle_signed_lem :
        new_secp256k1_instruction_2_0 env client oracle_secret
          (bot_oracle_message params)
          (length (a.instructions ++ signed) % 2 ^ 8)
        ≡ ok oracle_signed

  -- What stands in the transaction for a reward: perhaps an instruction that creates the recipient's
  -- account, then the signatures, and last the transfer. The fee payer pays, and it and the owner
  -- sign.
  pub record SendingPlan (reward_manager bot_oracle : Pubkey)
      {bot_oracle_secret senders_secrets : Text} (params : Transfer) (a : Accounts)
      (s : SigningPlan bot_oracle_secret senders_secrets params a) (tx : OnchainTransaction)
      : Type 0 where
    pub last : Instruction
    pub built :
        transfer env id reward_manager a.claimable_token_acc a.reward_manager_data.token_account
          bot_oracle config.fee_payer s.senders params
        ≡ ok last
    pub instructions_lem :
        tx.instructions ≡ ((a.instructions ++ s.signed) ++ s.oracle_signed ∷ []) ++ last ∷ []
    pub signers_lem : tx.signers ≡ config.fee_payer ∷ config.owner ∷ []
    pub payer_lem : tx.payer ≡ config.fee_payer

  module _ (reward_manager bot_oracle : Pubkey) (bot_oracle_secret senders_secrets : Text)
      (transfer_id : Text) (amount : ℕ) (a : Accounts) {tx : OnchainTransaction}
      (h : sign_transfer env client config id reward_manager bot_oracle bot_oracle_secret
          senders_secrets transfer_id amount a
        ≡ ok (some tx)) where
    sign_transfer-SigningPlan :
        SigningPlan bot_oracle_secret senders_secrets (reward_of transfer_id amount a) a
    unfolding sign_transfer senders_message bot_oracle_message
    sign_transfer-SigningPlan =
        let (rows, rows_read, g₁) = bind-eq_ok _ _ h in
        let ((senders, secrets), keys_read, g₂) = bind-eq_ok _ _ g₁ in
        let (signed, signed_lem, g₃) = bind-eq_ok _ _ g₂ in
        let (secret_bytes, secret_decoded, g₄) = bind-eq_ok _ _ g₃ in
        let (oracle_secret, secret_parsed, g₅) = bind-eq_ok _ _ g₄ in
        let (oracle_signed, oracle_signed_lem, g₆) = bind-eq_ok _ _ g₅ in
        record {
          rows = rows;
          rows_read = rows_read;
          senders = senders;
          secrets = secrets;
          keys_read = keys_read;
          signed = signed;
          signed_lem = signed_lem;
          secret_bytes = secret_bytes;
          secret_decoded = expect-eq_ok _ secret_decoded;
          oracle_secret = oracle_secret;
          secret_parsed = secret_parsed;
          oracle_signed = oracle_signed;
          oracle_signed_lem = oracle_signed_lem;
        }

    -- Whatever the keys sign in a plan is what stands in the transaction.
    pub sign_transfer-SendingPlan :
        (s : SigningPlan bot_oracle_secret senders_secrets (reward_of transfer_id amount a) a)
        → SendingPlan reward_manager bot_oracle (reward_of transfer_id amount a) a s tx
    unfolding sign_transfer senders_message bot_oracle_message expect
    sign_transfer-SendingPlan s =
        let g₁ = sym (bind-ok _ s.rows_read) ∙ h in
        let g₂ = sym (bind-ok _ s.keys_read) ∙ g₁ in
        let g₃ = sym (bind-ok _ s.signed_lem) ∙ g₂ in
        let g₄ = sym (bind-ok _ (ap expect s.secret_decoded)) ∙ g₃ in
        let g₅ = sym (bind-ok _ s.secret_parsed) ∙ g₄ in
        let g₆ = sym (bind-ok _ s.oracle_signed_lem) ∙ g₅ in
        let (last, built, g₇) = bind-eq_ok _ _ g₆ in
        let (instructions, signers, payer) = sign-eq_ok env client config id _ 0 g₇ in
        record {
          last = last;
          built = map_err-eq_ok _ _ built;
          instructions_lem = instructions;
          signers_lem = signers;
          payer_lem = payer;
        }

  -- The transaction that `command_transfer` gives is built for the reward that was asked for: the
  -- recipient is the address that was asked for, with its claimable account for the mint of the vault
  -- of the reward manager, as the cluster has them; recipient, amount and id stand in the messages
  -- that the program expects of the senders, with the oracle's address from the cluster, and of the
  -- oracle; the keys sign these; the transfer for this reward to that account, by the accounts of the
  -- keys' file, comes last; and the fee payer and the owner sign the transaction.
  pub command_transfer-eq_ok :
      (reward_manager bot_oracle : Pubkey)
      (bot_oracle_secret senders_secrets transfer_id eth_address_recipient : Text) (amount : ℕ)
      {tx : OnchainTransaction}
      → command_transfer env client config id reward_manager bot_oracle bot_oracle_secret
          senders_secrets transfer_id eth_address_recipient amount
        ≡ ok (some tx)
      → (a : Accounts) × AccountsPlan reward_manager bot_oracle eth_address_recipient a
        × (s : SigningPlan bot_oracle_secret senders_secrets (reward_of transfer_id amount a) a)
        × SendingPlan reward_manager bot_oracle (reward_of transfer_id amount a) a s tx
  unfolding command_transfer
  command_transfer-eq_ok reward_manager bot_oracle bot_oracle_secret senders_secrets transfer_id
        eth_address_recipient amount h =
      let (a, found, h₁) =
        bind-eq_ok
          (read_accounts env client config id reward_manager bot_oracle eth_address_recipient) _
          h in
      let s =
        sign_transfer-SigningPlan reward_manager bot_oracle bot_oracle_secret senders_secrets
          transfer_id amount a h₁ in
      (
        a,
        read_accounts-eq_ok reward_manager bot_oracle eth_address_recipient found,
        s,
        sign_transfer-SendingPlan reward_manager bot_oracle bot_oracle_secret senders_secrets
            transfer_id amount a h₁ s,
      )
