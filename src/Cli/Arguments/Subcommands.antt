-- ===== src/Cli/Arguments/Subcommands.antt =====
-- cli/src/main.rs: the declaration of the subcommands and of their arguments.
use Prim.Native.String.{String}
use audius_reward_manager.Prelude.{List, [], ◌∷◌, true, some}
use audius_reward_manager.Cli.Client.{Client}
use audius_reward_manager.Cli.Checks.{is_hex, is_eth_address, is_csv_file}
use audius_reward_manager.Cli.Arguments.{Arg, Clap, with_name}

module _ (client : Client) (clap : Clap) where
  unfoldable pub init_args : List Arg
  unfolding with_name
  init_args =
      record (with_name "token-mint") {
        long = some "token-mint";
        validator = some clap.is_pubkey;
        value_name = some "ADDRESS";
        takes_value = true;
        required = true;
      }
      ∷ record (with_name "min-votes") {
        long = some "min-votes";
        validator = some clap.is_parsable_u8;
        takes_value = true;
        required = true;
      }
      ∷ []

  unfoldable pub create_sender_args : List Arg
  unfolding with_name
  create_sender_args =
      record (with_name "reward-manager") {
        long = some "reward-manager";
        validator = some clap.is_pubkey;
        value_name = some "ADDRESS";
        takes_value = true;
        required = true;
      }
      ∷ record (with_name "eth-sender-address") {
        long = some "eth-sender-address";
        validator = some (is_eth_address client);
        value_name = some "ETH_ADDRESS";
        takes_value = true;
        required = true;
      }
      ∷ record (with_name "eth-operator-address") {
        long = some "eth-operator-address";
        validator = some (is_eth_address client);
        value_name = some "ETH_ADDRESS";
        takes_value = true;
        required = true;
      }
      ∷ []

  unfoldable pub delete_sender_args : List Arg
  unfolding with_name
  delete_sender_args =
      record (with_name "reward-manager") {
        long = some "reward-manager";
        validator = some clap.is_pubkey;
        value_name = some "ADDRESS";
        takes_value = true;
        required = true;
      }
      ∷ record (with_name "eth-sender-address") {
        long = some "eth-sender-address";
        validator = some (is_eth_address client);
        value_name = some "ETH_ADDRESS";
        takes_value = true;
        required = true;
      }
      ∷ []

  unfoldable pub add_sender_args : List Arg
  unfolding with_name
  add_sender_args =
      record (with_name "reward-manager") {
        long = some "reward-manager";
        validator = some clap.is_pubkey;
        value_name = some "ADDRESS";
        takes_value = true;
        required = true;
      }
      ∷ record (with_name "new-sender") {
        long = some "new-sender";
        validator = some (is_eth_address client);
        value_name = some "ETH_ADDRESS";
        takes_value = true;
        required = true;
      }
      ∷ record (with_name "operator-address") {
        long = some "operator-address";
        validator = some (is_eth_address client);
        value_name = some "ETH_ADDRESS";
        takes_value = true;
        required = true;
      }
      ∷ record (with_name "senders-secrets") {
        long = some "senders-secrets";
        validator = some (is_csv_file client);
        value_name = some "PATH";
        takes_value = true;
        required = true;
      }
      ∷ []

  unfoldable pub transfer_args : List Arg
  unfolding with_name
  transfer_args =
      record (with_name "reward-manager") {
        long = some "reward-manager";
        validator = some clap.is_pubkey;
        value_name = some "ADDRESS";
        takes_value = true;
        required = true;
      }
      ∷ record (with_name "bot-oracle") {
        long = some "bot-oracle";
        validator = some clap.is_pubkey;
        value_name = some "ADDRESS";
        takes_value = true;
        required = true;
      }
      ∷ record (with_name "bot-oracle-secret") {
        long = some "bot-oracle-secret";
        validator = some (is_hex client);
        value_name = some "ETH_SECRET";
        takes_value = true;
        required = true;
      }
      ∷ record (with_name "senders-secrets") {
        long = some "senders-secrets";
        validator = some (is_csv_file client);
        value_name = some "PATH";
        takes_value = true;
        required = true;
      }
      ∷ record (with_name "transfer-id") {
        long = some "transfer-id";
        validator = some clap.is_parsable_string;
        value_name = some "STRING";
        takes_value = true;
        required = true;
      }
      ∷ record (with_name "eth-address-recipient") {
        long = some "eth-address-recipient";
        validator = some (is_eth_address client);
        value_name = some "ETH_ADDRESS";
        takes_value = true;
        required = true;
      }
      ∷ record (with_name "amount") {
        long = some "amount";
        validator = some clap.is_parsable_f64;
        value_name = some "NUMBER";
        takes_value = true;
        required = true;
      }
      ∷ []

  -- The subcommands by name.
  unfoldable pub subcommands : List (String × List Arg)
  unfolding init_args create_sender_args delete_sender_args add_sender_args transfer_args
  subcommands =
      ("init", init_args)
      ∷ ("create-sender", create_sender_args)
      ∷ ("delete-sender", delete_sender_args)
      ∷ ("add-sender", add_sender_args)
      ∷ ("transfer", transfer_args)
      ∷ []
