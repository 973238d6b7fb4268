-- ===== src/Cli/Startup.antt =====
-- cli/src/main.rs: `main`, from the matches of `clap` to the end of the process: the configuration,
-- the subcommand, and how the process ends.
pub mod Ending
pub mod Signers
use Prim.Native.String.{String}
use audius_reward_manager.Prelude.{ℕ, Bool, true, false, Bytes, Option, none, some}
use audius_reward_manager.Outcome.{Result, ok, err, panic, ⊤, ◌>>=◌}
use audius_reward_manager.State.{Pubkey}
use audius_reward_manager.Runtime.{Env}
use audius_reward_manager.Cli.Client.{Error, Text, Client}
use audius_reward_manager.Cli.Transaction.{Config, OnchainTransaction}
use audius_reward_manager.Cli.Main.{main}
use audius_reward_manager.Cli.Arguments.{Clap}
use audius_reward_manager.Cli.Arguments.Matches.{ArgMatches, read_subcommand}

-- `solana_cli_config::Config`, by the fields that the client reads.
pub record CliConfig : Type 0 where
  pub json_rpc_url : Text
  pub keypair_path : Text

-- `solana_remote_wallet::remote_wallet::RemoteWalletManager`, by a number that the client never
-- looks at.
abbrev pub RemoteWalletManager : Type 0
RemoteWalletManager = ℕ

-- What the client uses of `solana_cli_config`, of `value_t!`, and of `solana_clap_utils`, which
-- gives the key of a signer and the wallet manager that it leaves.
pub record Settings : Type 0 where
  pub load : Text → Result Error CliConfig
  pub default : CliConfig
  pub value_t_string : Option Text → Result Error Text
  pub signer_from_path :
      ArgMatches
      → (path : Text) → (keypair_name : String) → Option RemoteWalletManager
      → Result Error (Pubkey × Option RemoteWalletManager)

-- `unwrap_or_default` and `unwrap_or_else`, with the value for an error.
unfoldable pub unwrap_or : {A : Type 0} → Result Error A → A → Result Error A
unwrap_or (ok a) _ = ok a
unwrap_or (err _) a = ok a
unwrap_or panic _ = panic

unfoldable pub is_some : {A : Type 0} → Option A → Bool
is_some none = false
is_some (some _) = true

-- `Config`, with the URL of its `RpcClient`.
pub record Startup : Type 0 where
  pub json_rpc_url : Text
  pub verbose : Bool
  pub config : Config

module _ (settings : Settings) where
  -- From the value of `config_file`.
  unfoldable pub read_cli_config : Option Text → Result Error CliConfig
  unfolding unwrap_or
  read_cli_config none = ok settings.default
  read_cli_config (some config_file) = unwrap_or (settings.load config_file) settings.default

  -- The variable `config`. An error of a signer is printed and ends the process, like those of the
  -- commands.
  unfoldable pub load_config : ArgMatches → Result Error Startup
  unfolding unwrap_or read_cli_config is_some
  load_config m = do
    cli_config ← read_cli_config (m "config_file")
    json_rpc_url ← unwrap_or (settings.value_t_string (m "json_rpc_url")) cli_config.json_rpc_url
    (owner, wallet_manager) ← settings.signer_from_path m cli_config.keypair_path "owner" none
    (fee_payer, wallet_manager) ←
        settings.signer_from_path m cli_config.keypair_path "fee_payer" wallet_manager
    ok (record {
      json_rpc_url = json_rpc_url;
      verbose = is_some (m "verbose");
      config = record { owner = owner; fee_payer = fee_payer };
    })

-- How the process ends.
pub data Exit : Type 0 where
  returned : Exit
  exited : (code : ℕ) → Exit
  panicked : Exit

-- `map_err(|err| { …; exit(1); })`, and the ends of the process before it.
unfoldable pub exit_of : Result Error ⊤ → Exit
exit_of (ok _) = returned
exit_of (err _) = exited 1
exit_of panic = panicked

-- `connect` gives the client for the cluster at a URL, and `send` sends a transaction to it.
module _ (env : Env) (clap : Clap) (settings : Settings) (connect : Text → Client)
    (send : Text → OnchainTransaction → Result Error Bytes)
    (id fresh_manager fresh_vault : Pubkey) where
  -- The matches are those of the whole command line and those of the subcommand.
  unfoldable pub start :
      (m : ArgMatches) → (subcommand : String) → (arg_matches : ArgMatches) → Exit
  unfolding load_config read_subcommand main exit_of
  start m subcommand arg_matches = exit_of (do
    startup ← load_config settings m
    command ← read_subcommand clap subcommand arg_matches
    main env (connect startup.json_rpc_url) startup.config id fresh_manager fresh_vault
        (send startup.json_rpc_url) command)
