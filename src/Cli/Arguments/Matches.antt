-- ===== src/Cli/Arguments/Matches.antt =====
-- cli/src/main.rs: how `main` reads the arguments of a subcommand.
use Prim.Native.String.{String}
use text.Mathlib.Text.{◌==◌ as str_eq}
use audius_reward_manager.Prelude.{Option, none, some, if◌then◌else◌}
use audius_reward_manager.Outcome.{Result, ok, panic, ◌>>=◌}
use audius_reward_manager.Cli.Client.{Error, Text}
use audius_reward_manager.Cli.Arguments.{Clap}
use audius_reward_manager.Cli.Main.{
  Subcommand, init, create_sender, delete_sender, add_sender, transfer,
}

-- `clap::ArgMatches`, by the value of each argument.
abbrev pub ArgMatches : Type 0
ArgMatches = String → Option Text

-- `unwrap`
unfoldable pub unwrap : {A : Type 0} → Option A → Result Error A
unwrap none = panic
unwrap (some a) = ok a

module _ (clap : Clap) where
  unfoldable pub read_init : ArgMatches → Result Error Subcommand
  unfolding unwrap
  read_init m = do
    token_mint ← unwrap (clap.pubkey_of (m "token-mint"))
    min_votes ← clap.value_t_or_exit_u8 (m "min-votes")
    ok (init token_mint min_votes)

  unfoldable pub read_create_sender : ArgMatches → Result Error Subcommand
  unfolding unwrap
  read_create_sender m = do
    reward_manager ← unwrap (clap.pubkey_of (m "reward-manager"))
    eth_sender_address ← clap.value_t_or_exit_string (m "eth-sender-address")
    eth_operator_address ← clap.value_t_or_exit_string (m "eth-operator-address")
    ok (create_sender reward_manager eth_sender_address eth_operator_address)

  unfoldable pub read_delete_sender : ArgMatches → Result Error Subcommand
  unfolding unwrap
  read_delete_sender m = do
    reward_manager ← unwrap (clap.pubkey_of (m "reward-manager"))
    eth_sender_address ← clap.value_t_or_exit_string (m "eth-sender-address")
    ok (delete_sender reward_manager eth_sender_address)

  unfoldable pub read_add_sender : ArgMatches → Result Error Subcommand
  unfolding unwrap
  read_add_sender m = do
    reward_manager ← unwrap (clap.pubkey_of (m "reward-manager"))
    new_sender ← clap.value_t_or_exit_string (m "new-sender")
    operator_address ← clap.value_t_or_exit_string (m "operator-address")
    senders_secrets ← clap.value_t_or_exit_string (m "senders-secrets")
    ok (add_sender reward_manager new_sender operator_address senders_secrets)

  unfoldable pub read_transfer : ArgMatches → Result Error Subcommand
  unfolding unwrap
  read_transfer m = do
    reward_manager ← unwrap (clap.pubkey_of (m "reward-manager"))
    bot_oracle ← unwrap (clap.pubkey_of (m "bot-oracle"))
    bot_oracle_secret ← clap.value_t_or_exit_string (m "bot-oracle-secret")
    senders_secrets ← clap.value_t_or_exit_string (m "senders-secrets")
    transfer_id ← clap.value_t_or_exit_string (m "transfer-id")
    eth_address_recipient ← clap.value_t_or_exit_string (m "eth-address-recipient")
    amount ← clap.value_t_or_exit_f64 (m "amount")
    ok (
        transfer reward_manager bot_oracle bot_oracle_secret senders_secrets transfer_id
          eth_address_recipient amount)

  -- The patterns of the `match` on `matches.subcommand()`; the last is `unreachable!()`.
  unfoldable pub read_subcommand : String → ArgMatches → Result Error Subcommand
  read_subcommand name m =
      if str_eq name "init"
      then read_init m
      else if str_eq name "create-sender"
      then read_create_sender m
      else if str_eq name "delete-sender"
      then read_delete_sender m
      else if str_eq name "add-sender"
      then read_add_sender m
      else if str_eq name "transfer"
      then read_transfer m
      else panic
