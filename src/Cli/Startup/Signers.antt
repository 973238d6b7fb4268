-- ===== src/Cli/Startup/Signers.antt =====
-- Which keys sign for the owner and the fee payer.
use Prim.Native.String.{String}
use audius_reward_manager.Prelude.{none, subst, ap, ◌≡◌, ap, Bytes, Option, sym, ◌∙◌}
use audius_reward_manager.Outcome.{Result, ok, bind_assoc, bind-cong, ◌>>=◌}
use audius_reward_manager.State.{Pubkey}
use audius_reward_manager.Runtime.{Env}
use audius_reward_manager.Cli.Client.{Error, Text, Client}
use audius_reward_manager.Cli.Transaction.{OnchainTransaction}
use audius_reward_manager.Cli.Main.{main}
use audius_reward_manager.Cli.Arguments.{Clap}
use audius_reward_manager.Cli.Arguments.Matches.{ArgMatches, read_subcommand}
use audius_reward_manager.Cli.Startup.{
  Startup, is_some, CliConfig, RemoteWalletManager, Settings, unwrap_or, read_cli_config,
  load_config, Exit, exit_of, start,
}

-- What `signer_from_path` documents of the path of a keypair file: the key in the file signs, and
-- nothing else is looked at.
abbrev pub IsKeypairFile : Settings → (path : Text) → (key : Pubkey) → Type 0
IsKeypairFile settings path key =
    (m : ArgMatches) (keypair_name : String) (wallet_manager : Option RemoteWalletManager)
    → settings.signer_from_path m path keypair_name wallet_manager ≡ ok (key, wallet_manager)

module _ (env : Env) (clap : Clap) (settings : Settings) (connect : Text → Client)
    (send : Text → OnchainTransaction → Result Error Bytes)
    (id fresh_manager fresh_vault : Pubkey) where
  abbrev with_key : ArgMatches → Pubkey → (json_rpc_url : Text) → Startup
  with_key m key json_rpc_url = record {
    json_rpc_url = json_rpc_url;
    verbose = is_some (m "verbose");
    config = record { owner = key; fee_payer = key };
  }

  -- The configuration, where the path of the keypair is that of a file.
  load_config-IsKeypairFile :
      (m : ArgMatches) (cli_config : CliConfig) (key : Pubkey)
      → read_cli_config settings (m "config_file") ≡ ok cli_config
      → IsKeypairFile settings cli_config.keypair_path key
      → load_config settings m ≡ (
          unwrap_or (settings.value_t_string (m "json_rpc_url")) cli_config.json_rpc_url
          >>= λ json_rpc_url. ok (record {
            json_rpc_url = json_rpc_url;
            verbose = is_some (m "verbose");
            config = record { owner = key; fee_payer = key };
          }))
  unfolding load_config ◌>>=◌
  load_config-IsKeypairFile m cli_config key read file = rw read (
      bind-cong (unwrap_or (settings.value_t_string (m "json_rpc_url")) cli_config.json_rpc_url)
        (λ _. rw (file m "owner" none, file m "fee_payer" none)))

  -- The client with one key for both signers.
  abbrev pub start_with :
      (key : Pubkey) (cli_config : CliConfig) (url : Option Text) (subcommand : String)
      → (arg_matches : ArgMatches) → Exit
  start_with key cli_config url subcommand arg_matches = exit_of (
      unwrap_or (settings.value_t_string url) cli_config.json_rpc_url >>= λ json_rpc_url.
      read_subcommand clap subcommand arg_matches
      >>= main env (connect json_rpc_url) (record { owner = key; fee_payer = key }) id fresh_manager
          fresh_vault (send json_rpc_url))

  start-start_with :
      (m : ArgMatches) (subcommand : String) (arg_matches : ArgMatches) (cli_config : CliConfig)
      (key : Pubkey)
      → read_cli_config settings (m "config_file") ≡ ok cli_config
      → IsKeypairFile settings cli_config.keypair_path key
      → start env clap settings connect send id fresh_manager fresh_vault m subcommand arg_matches
        ≡ start_with key cli_config (m "json_rpc_url") subcommand arg_matches
  unfolding start ◌>>=◌
  start-start_with m subcommand arg_matches cli_config key read file =
      rw (load_config-IsKeypairFile m cli_config key read file) (
        ap exit_of (
          bind_assoc
            (unwrap_or (settings.value_t_string (m "json_rpc_url")) cli_config.json_rpc_url)
            (λ (url : Text). ok (with_key m key url)) _))

  -- `--owner` and `--fee-payer` have no effect. Where the configuration names a keypair file: for
  -- two command lines with the same configuration file and the same `--url`, whatever else they give
  -- before the subcommand, the client ends in the same way, which is to run the subcommand with the
  -- key of the configured file as owner and as fee payer.
  pub start_one_key :
      (m m' : ArgMatches) (subcommand : String) (arg_matches : ArgMatches) (cli_config : CliConfig)
      (key : Pubkey)
      → m "config_file" ≡ m' "config_file"
      → m "json_rpc_url" ≡ m' "json_rpc_url"
      → read_cli_config settings (m "config_file") ≡ ok cli_config
      → IsKeypairFile settings cli_config.keypair_path key
      → (start env clap settings connect send id fresh_manager fresh_vault m subcommand arg_matches
          ≡ start env clap settings connect send id fresh_manager fresh_vault m' subcommand
              arg_matches)
        × (start env clap settings connect send id fresh_manager fresh_vault m subcommand
              arg_matches
            ≡ start_with key cli_config (m "json_rpc_url") subcommand arg_matches)
  start_one_key m m' subcommand arg_matches cli_config key same_file same_url read file =
      let one = start-start_with m subcommand arg_matches cli_config key read file in
      let two =
        start-start_with m' subcommand arg_matches cli_config key
          (subst (λ f. read_cli_config settings f ≡ ok cli_config) same_file read) file in
      (one ∙ ap (λ u. start_with key cli_config u subcommand arg_matches) same_url ∙ sym two, one)
