-- ===== src/Cli/Main.antt =====
-- cli/src/main.rs: `main`, from the parsed arguments on.
pub mod Addresses
use audius_reward_manager.Prelude.{ℕ, Option, none, some, Bytes}
use audius_reward_manager.Outcome.{Result, ok, ⊤, ◌>>=◌}
use audius_reward_manager.State.{Pubkey}
use audius_reward_manager.Runtime.{Env}
use audius_reward_manager.Cli.Client.{Error, Text, Float, Client}
use audius_reward_manager.Cli.Checks.{get_rest}
use audius_reward_manager.Cli.Transaction.{Config, OnchainTransaction}
use audius_reward_manager.Cli.Commands.{
  CommandResult, command_init, command_create_sender, command_delete_sender, command_add_sender,
  command_transfer,
}

-- The subcommands, with their arguments as `clap` has parsed and validated them.
pub data Subcommand : Type 0 where
  init : (token_mint : Pubkey) → (min_votes : ℕ) → Subcommand
  create_sender :
      (reward_manager : Pubkey) → (eth_sender_address eth_operator_address : Text) → Subcommand
  delete_sender : (reward_manager : Pubkey) → (eth_sender_address : Text) → Subcommand
  add_sender :
      (reward_manager : Pubkey) → (new_sender operator_address senders_secrets : Text) → Subcommand
  transfer :
      (reward_manager bot_oracle : Pubkey)
      → (bot_oracle_secret senders_secrets transfer_id eth_address_recipient : Text)
      → (amount : Float) → Subcommand

-- `fresh_manager` and `fresh_vault` are the keys of the keypairs that `command_init` makes.
module _ (env : Env) (client : Client) (config : Config)
    (id fresh_manager fresh_vault : Pubkey) where
  -- The `match` on the subcommand.
  unfoldable pub run : Subcommand → CommandResult
  unfolding get_rest command_init command_create_sender command_delete_sender command_add_sender
      command_transfer
  run (init token_mint min_votes) =
      command_init env client config id fresh_manager fresh_vault token_mint min_votes
  run (create_sender reward_manager eth_sender_address eth_operator_address) = do
    sender ← get_rest client eth_sender_address
    operator ← get_rest client eth_operator_address
    command_create_sender env client config id reward_manager sender operator
  run (delete_sender reward_manager eth_sender_address) = do
    sender ← get_rest client eth_sender_address
    command_delete_sender env client config id reward_manager sender
  run (add_sender reward_manager new_sender operator_address senders_secrets) = do
    sender ← get_rest client new_sender
    operator ← get_rest client operator_address
    command_add_sender env client config id reward_manager sender operator senders_secrets
  run
        (transfer reward_manager bot_oracle bot_oracle_secret senders_secrets transfer_id
          eth_address_recipient amount) =
      do
        let amount' = client.ui_amount_to_amount amount client.native_decimals
        recipient ← get_rest client eth_address_recipient
        command_transfer env client config id reward_manager bot_oracle bot_oracle_secret
            senders_secrets transfer_id recipient amount'

  -- What `and_then` does with the transaction: it is sent, if there is one.
  unfoldable pub submit :
      (OnchainTransaction → Result Error Bytes) → Option OnchainTransaction → Result Error ⊤
  submit send none = ok tt
  submit send (some transaction) = send transaction >>= λ _. ok tt

  unfoldable pub main : (OnchainTransaction → Result Error Bytes) → Subcommand → Result Error ⊤
  unfolding run submit
  main send subcommand = run subcommand >>= submit send
