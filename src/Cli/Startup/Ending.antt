-- ===== src/Cli/Startup/Ending.antt =====
-- When the process of the client returns.
use Prim.Native.String.{String}
use audius_reward_manager.Prelude.{ap, sym, ◌∙◌, ℕ, ◌≡◌, refl, Bytes, Option, some}
use audius_reward_manager.Outcome.{Result, ok, err, panic, ⊤, bind-eq_ok}
use audius_reward_manager.Outcome.Ensures.{Ensures, Ensures-bind_any}
use audius_reward_manager.State.{Pubkey}
use audius_reward_manager.Runtime.{Env}
use audius_reward_manager.Cli.Client.{Error, Text, Client}
use audius_reward_manager.Cli.Transaction.{Config, Transaction, OnchainTransaction, sign}
use audius_reward_manager.Cli.Commands.{
  CommandResult, command_init, command_create_sender, command_delete_sender, command_add_sender,
  command_transfer, sign_transfer,
}
use audius_reward_manager.Cli.Main.{
  main, submit, run, Subcommand, init, create_sender, delete_sender, add_sender, transfer,
}
use audius_reward_manager.Cli.Arguments.{Clap}
use audius_reward_manager.Cli.Arguments.Matches.{ArgMatches, read_subcommand}
use audius_reward_manager.Cli.Commands.Signed.{if-eq_ok}
use audius_reward_manager.Cli.Startup.{Settings, Startup, load_config, returned, exit_of, start}

-- There is a transaction.
abbrev IsBuilt : Option OnchainTransaction → Type 0
IsBuilt o = (tx : OnchainTransaction) × (o ≡ some tx)

abbrev Builds : CommandResult → Type 0
Builds = Ensures IsBuilt

module _ (env : Env) (client : Client) (config : Config) where
  sign-Builds : (t : Transaction) (additional : ℕ) → Builds (sign client config t additional)
  unfolding sign
  sign-Builds t additional = Ensures-bind_any _ _ λ (h, fees). Ensures-bind_any _ _ λ _. record {
    at = λ o signed.
        (_, sym (if-eq_ok (client.can_sign t.instructions config.fee_payer t.signers) signed));
  }

  run-Builds :
      (id fresh_manager fresh_vault : Pubkey) (s : Subcommand)
      → Builds (run env client config id fresh_manager fresh_vault s)
  unfolding run command_init command_create_sender command_delete_sender command_add_sender
      command_transfer sign_transfer
  run-Builds id fresh_manager fresh_vault (init mint min_votes) =
      search (Ensures-bind_any, sign-Builds) depth 14
  run-Builds id fresh_manager fresh_vault (create_sender manager sender operator) =
      search (Ensures-bind_any, sign-Builds) depth 14
  run-Builds id fresh_manager fresh_vault (delete_sender manager sender) =
      search (Ensures-bind_any, sign-Builds) depth 14
  run-Builds id fresh_manager fresh_vault (add_sender manager sender operator secrets) =
      search (Ensures-bind_any, sign-Builds) depth 14
  run-Builds id fresh_manager fresh_vault
        (transfer manager oracle oracle_secret secrets transfer_id recipient amount) =
      search (Ensures-bind_any, sign-Builds) depth 14

exit_of-returned : (r : Result Error ⊤) → exit_of r ≡ returned → r ≡ ok tt
unfolding exit_of
exit_of-returned (ok tt) h = refl
exit_of-returned (err e) h = cc
exit_of-returned panic h = cc

module _ (env : Env) (clap : Clap) (settings : Settings) (connect : Text → Client)
    (send : Text → OnchainTransaction → Result Error Bytes)
    (id fresh_manager fresh_vault : Pubkey) where
  -- A transaction of the subcommand that was asked for, built with the configured keys against the
  -- configured cluster, which has confirmed it.
  pub record IsSent (m : ArgMatches) (subcommand : String) (arg_matches : ArgMatches) : Type 0 where
    pub startup : Startup
    pub loaded : load_config settings m ≡ ok startup
    pub command : Subcommand
    pub command_read : read_subcommand clap subcommand arg_matches ≡ ok command
    pub transaction : OnchainTransaction
    pub built :
        run env (connect startup.json_rpc_url) startup.config id fresh_manager fresh_vault command
        ≡ ok (some transaction)
    pub signature : Bytes
    pub sent : send startup.json_rpc_url transaction ≡ ok signature

  -- The process does not return without a transaction: if it returns, in place of an exit with
  -- code 1 or a panic, then the configuration was loaded, the subcommand was read, it built a
  -- transaction, and the cluster of the configuration has answered that transaction with a signature.
  pub start-returned :
      (m : ArgMatches) (subcommand : String) (arg_matches : ArgMatches)
      → start env clap settings connect send id fresh_manager fresh_vault m subcommand arg_matches
        ≡ returned
      → IsSent m subcommand arg_matches
  unfolding start main submit
  start-returned m subcommand arg_matches h =
      let (startup, loaded, h₁) = bind-eq_ok _ _ (exit_of-returned _ h) in
      let (command, command_read, h₂) = bind-eq_ok _ _ h₁ in
      let (o, built, h₃) = bind-eq_ok _ _ h₂ in
      let (tx, some_lem) =
        (run-Builds env (connect startup.json_rpc_url) startup.config id fresh_manager fresh_vault
            command).at
          o built in
      let h₄ = rw some_lem at h₃ in
      let (signature, sent, _) = bind-eq_ok (send startup.json_rpc_url tx) _ h₄ in
      record {
        startup = startup;
        loaded = loaded;
        command = command;
        command_read = command_read;
        transaction = tx;
        built = built ∙ ap ok some_lem;
        signature = signature;
        sent = sent;
      }
