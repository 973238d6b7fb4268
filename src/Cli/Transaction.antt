-- ===== src/Cli/Transaction.antt =====
-- cli/src/utils.rs: a transaction of the client, and its signing.
use audius_reward_manager.Prelude.{ℕ, ◌+◌, ◌%◌, ◌^◌, List, Bytes, ltb, Option, some, if◌then◌else◌}
use audius_reward_manager.Outcome.{Result, ok, panic, ⊤, ◌>>=◌, ◌>>◌, return_if}
use audius_reward_manager.State.{Pubkey}
use audius_reward_manager.Runtime.{Instruction}
use audius_reward_manager.Cli.Client.{Error, insufficient_balance, Client}

-- cli/src/main.rs: `Config`, with the keys of its signers. The client of the cluster is a `Client`.
pub record Config : Type 0 where
  pub owner : Pubkey
  pub fee_payer : Pubkey

-- `Transaction`, with the keys of its signers.
pub record Transaction : Type 0 where
  pub instructions : List Instruction
  pub signers : List Pubkey

-- `solana_sdk::transaction::Transaction`, by what it was made and signed with.
pub record OnchainTransaction : Type 0 where
  pub instructions : List Instruction
  pub payer : Pubkey
  pub signers : List Pubkey
  pub recent_blockhash : Bytes

module _ (client : Client) (config : Config) where
  unfoldable pub check_fee_payer_balance : ℕ → Result Error ⊤
  check_fee_payer_balance required_balance = do
    balance ← client.get_balance config.fee_payer
    return_if (ltb balance required_balance)
        (insufficient_balance config.fee_payer required_balance balance)

  -- The sum of two `u64` wraps.
  unfoldable pub sign : Transaction → ℕ → Result Error (Option OnchainTransaction)
  unfolding check_fee_payer_balance
  sign transaction additional_balance_required = do
    (recent_blockhash, fee_calculator) ← client.get_recent_blockhash
    check_fee_payer_balance (
        (client.calculate_fee fee_calculator transaction.instructions config.fee_payer
          + additional_balance_required)
        % 2 ^ 64)
    if client.can_sign transaction.instructions config.fee_payer transaction.signers
        then ok (
            some (record {
              instructions = transaction.instructions;
              payer = config.fee_payer;
              signers = transaction.signers;
              recent_blockhash = recent_blockhash;
            }))
        else panic
