-- ===== src/Cli/Commands.antt =====
-- cli/src/main.rs: the commands, each of which builds one transaction.
pub mod Signed
pub mod Plan
pub mod Payment
pub mod Adding
pub mod Managing
pub mod Starting
use audius_reward_manager.Prelude.{ℕ, ◌+◌, ◌%◌, ◌^◌, List, [], ◌∷◌, ◌++◌, length, Option}
use audius_reward_manager.Outcome.{Result, ok, err, panic, ◌>>=◌, map_err}
use audius_reward_manager.State.{
  Pubkey, EthereumAddress, RewardManager, SenderAccount, reward_manager_len,
}
use audius_reward_manager.Instructions.Builders.{
  init, create_sender, delete_sender, add_sender, transfer,
}
use audius_reward_manager.Runtime.{Instruction, Env}
use audius_reward_manager.Consts.{sender_seed_prefix}
use audius_reward_manager.Utils.Address.{get_address_pair}
use audius_reward_manager.Utils.Verify.{to_le_bytes, separator}
use audius_reward_manager.Cli.Client.{Error, program, pubkey, Text, SecretKey, SenderData, Client}
use audius_reward_manager.Cli.Signing.{new_secp256k1_instruction_2_0, sign_message}
use audius_reward_manager.Cli.Transaction.{Config, OnchainTransaction, sign}

-- `expect`
unfoldable pub expect : {A : Type 0} → Result Error A → Result Error A
expect (ok a) = ok a
expect (err e) = panic
expect panic = panic

abbrev pub CommandResult : Type 0
CommandResult = Result Error (Option OnchainTransaction)

-- The variables of `command_transfer` that the cluster's accounts give.
pub record Accounts : Type 0 where
  pub reward_manager_data : RewardManager
  pub bot_oracle_data : SenderAccount
  pub decoded_recipient_address : EthereumAddress
  pub claimable_token_acc : Pubkey
  pub instructions : List Instruction

-- `id` is `audius_reward_manager::id()`.
module _ (env : Env) (client : Client) (config : Config) (id : Pubkey) where
  -- The two keys are those of fresh keypairs.
  unfoldable pub command_init :
      (reward_manager_acc reward_manager_token_acc token_mint : Pubkey)
      → (min_votes : ℕ) → CommandResult
  unfolding init sign
  command_init reward_manager_acc reward_manager_token_acc token_mint min_votes = do
    reward_manager_acc_balance ← client.get_minimum_balance_for_rent_exemption reward_manager_len
    token_acc_balance ← client.get_minimum_balance_for_rent_exemption client.token_account_len
    instruction ←
        map_err program (
          init env id reward_manager_acc reward_manager_token_acc token_mint config.owner min_votes)
    sign client config
        (record {
          instructions =
              client.create_account config.fee_payer reward_manager_acc reward_manager_acc_balance
                reward_manager_len id
              ∷ client.create_account config.fee_payer reward_manager_token_acc token_acc_balance
                  client.token_account_len env.spl_token_id
              ∷ instruction
              ∷ [];
          signers =
              config.fee_payer ∷ config.owner ∷ reward_manager_acc ∷ reward_manager_token_acc ∷ [];
        })
        ((reward_manager_acc_balance + token_acc_balance) % 2 ^ 64)

  unfoldable pub command_create_sender :
      Pubkey → (eth_sender_address eth_operator_address : Text) → CommandResult
  unfolding create_sender get_address_pair sign expect
  command_create_sender reward_manager eth_sender_address eth_operator_address = do
    decoded_eth_sender_address ← expect (client.from_hex 20 eth_sender_address)
    decoded_eth_operator_address ← expect (client.from_hex 20 eth_operator_address)
    new_sender_key ←
        map_err pubkey (
          get_address_pair env id reward_manager (sender_seed_prefix ++ decoded_eth_sender_address))
    instruction ← map_err program (
        create_sender env id reward_manager config.owner config.fee_payer decoded_eth_sender_address
          decoded_eth_operator_address)
    sign client config
        (record { instructions = instruction ∷ []; signers = config.fee_payer ∷ config.owner ∷ [] })
        0

  unfoldable pub command_delete_sender : Pubkey → (eth_sender_address : Text) → CommandResult
  unfolding delete_sender sign expect
  command_delete_sender reward_manager eth_sender_address = do
    decoded_eth_sender_address ← expect (client.from_hex 20 eth_sender_address)
    instruction ← map_err program (
        delete_sender env id reward_manager config.owner config.fee_payer
          decoded_eth_sender_address)
    sign client config
        (record { instructions = instruction ∷ []; signers = config.fee_payer ∷ config.owner ∷ [] })
        0

  -- The loop over the rows of the file with the senders' keys: `senders` and `secrets`.
  unfoldable pub read_keys :
      List (Result Error SenderData) → Result Error (List Pubkey × List SecretKey)
  read_keys [] = ok ([], [])
  read_keys (key ∷ keys) = do
    deserialized_sender_data ← key
    decoded_secret ← expect (client.from_hex 32 deserialized_sender_data.eth_secret)
    sender ← client.pubkey_from_str deserialized_sender_data.solana_key
    secret ← client.parse_secret_key decoded_secret
    (senders, secrets) ← read_keys keys
    ok (sender ∷ senders, secret ∷ secrets)

  unfoldable pub command_add_sender :
      Pubkey → (new_sender operator_address senders_secrets : Text) → CommandResult
  unfolding add_sender get_address_pair sign expect read_keys sign_message
  command_add_sender reward_manager new_sender operator_address senders_secrets = do
    rows ← client.read_rows senders_secrets
    new_sender ← expect (client.from_hex 20 new_sender)
    let message_to_sign = reward_manager ++ new_sender
    operator_address ← expect (client.from_hex 20 operator_address)
    (senders, secrets) ← read_keys rows
    instructions ← sign_message env client message_to_sign secrets
    instruction ←
        map_err program
          (add_sender env id reward_manager config.fee_payer new_sender operator_address senders)
    new_sender_solana_key ←
        map_err pubkey (get_address_pair env id reward_manager (sender_seed_prefix ++ new_sender))
    sign client config
        (record {
          instructions = instructions ++ instruction ∷ [];
          signers = config.fee_payer ∷ config.owner ∷ [];
        })
        0

  -- The instruction that creates the recipient's account, if there is none.
  unfoldable pub create_recipient :
      Pubkey → Pubkey → EthereumAddress → Result Error (List Instruction)
  create_recipient recipient mint eth_address = elim (client.get_account_data recipient) [
    | ok _ ↦ ok []
    | err _ ↦
        map_err program
          (client.claimable_init env.claimable_tokens_id config.fee_payer mint eth_address)
        >>= λ (instruction : Instruction). ok (instruction ∷ [])
    | panic ↦ panic
  ]

  -- `command_transfer` up to the instruction for the recipient: what it asks the cluster.
  unfoldable pub read_accounts :
      (reward_manager bot_oracle : Pubkey) → (eth_address_recipient : Text) → Result Error Accounts
  unfolding expect create_recipient
  read_accounts reward_manager bot_oracle eth_address_recipient = do
    account ← client.get_account_data reward_manager
    reward_manager_data ← map_err program (env.reward_manager_borsh.try_from_slice account)
    account ← client.get_account_data bot_oracle
    bot_oracle_data ← map_err program (env.sender_borsh.try_from_slice account)
    decoded_recipient_address ← expect (client.from_hex 20 eth_address_recipient)
    account ← client.get_account_data reward_manager_data.token_account
    mint ← map_err program (env.unpack_token_account_mint account)
    claimable_token_acc ←
        map_err pubkey
          (env.claimable_address env.claimable_tokens_id mint decoded_recipient_address)
    instructions ← create_recipient claimable_token_acc mint decoded_recipient_address
    ok (record {
      reward_manager_data = reward_manager_data;
      bot_oracle_data = bot_oracle_data;
      decoded_recipient_address = decoded_recipient_address;
      claimable_token_acc = claimable_token_acc;
      instructions = instructions;
    })

  -- `command_transfer` from the messages on.
  unfoldable pub sign_transfer :
      (reward_manager bot_oracle : Pubkey)
      → (bot_oracle_secret senders_secrets transfer_id : Text) → (amount : ℕ) → Accounts
      → CommandResult
  unfolding transfer sign expect read_keys sign_message new_secp256k1_instruction_2_0
  sign_transfer reward_manager bot_oracle bot_oracle_secret senders_secrets transfer_id amount a =
      do
        let sender_message =
            a.decoded_recipient_address
            ++ (separator
                ++ (to_le_bytes 8 amount
                    ++ (separator
                        ++ (transfer_id ++ (separator ++ a.bot_oracle_data.eth_address)))))
        let bot_oracle_message =
            a.decoded_recipient_address
            ++ (separator ++ (to_le_bytes 8 amount ++ (separator ++ transfer_id)))
        rows ← client.read_rows senders_secrets
        (senders, secrets) ← read_keys rows
        signed ← sign_message env client sender_message secrets
        let instructions = a.instructions ++ signed
        bot_oracle_secret ← expect (client.from_hex 32 bot_oracle_secret)
        secret ← client.parse_secret_key bot_oracle_secret
        oracle_signed ←
            new_secp256k1_instruction_2_0 env client secret bot_oracle_message
              (length instructions % 2 ^ 8)
        instruction ← map_err program (
            transfer env id reward_manager a.claimable_token_acc a.reward_manager_data.token_account
              bot_oracle config.fee_payer senders
              (record {
                amount = amount;
                id = transfer_id;
                eth_recipient = a.decoded_recipient_address;
              }))
        sign client config
            (record {
              instructions = (instructions ++ oracle_signed ∷ []) ++ instruction ∷ [];
              signers = config.fee_payer ∷ config.owner ∷ [];
            })
            0

  unfoldable pub command_transfer :
      (reward_manager bot_oracle : Pubkey)
      → (bot_oracle_secret senders_secrets transfer_id eth_address_recipient : Text) → (amount : ℕ)
      → CommandResult
  unfolding read_accounts sign_transfer
  command_transfer reward_manager bot_oracle bot_oracle_secret senders_secrets transfer_id
        eth_address_recipient amount =
      read_accounts reward_manager bot_oracle eth_address_recipient
      >>= sign_transfer reward_manager bot_oracle bot_oracle_secret senders_secrets transfer_id
          amount
