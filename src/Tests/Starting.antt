-- ===== src/Tests/Starting.antt =====
-- The whole run of the concrete client, with different owners on the command line.
use text.Mathlib.Text.{◌==◌ as str_eq}
use audius_reward_manager.Prelude.{
  contains, ◌≡◌, refl, [], ◌∷◌, none, some, if◌then◌else◌, ◌==◌, replicate, take, drop,
}
use audius_reward_manager.Outcome.{ok, ◌>>=◌, map_err, return_if}
use audius_reward_manager.Cli.Client.{Text}
use audius_reward_manager.Cli.Arguments.Matches.{read_delete_sender, ArgMatches}
use audius_reward_manager.Cli.Startup.{CliConfig, Settings, returned, start, read_cli_config}
use audius_reward_manager.Cli.Startup.Signers.{start_with, start_one_key}
use audius_reward_manager.Cli.Startup.Ending.{IsSent, start-returned}
use audius_reward_manager.Tests.Chain.{chain, first}
use audius_reward_manager.Tests.Scene.{key}
use audius_reward_manager.Tests.Desk.{client}
use audius_reward_manager.Tests.Commands.{id}
use audius_reward_manager.Tests.Arguments.{clap, matches, text_of_value}

abbrev cli_config : CliConfig
cli_config = record { json_rpc_url = 1 ∷ []; keypair_path = 9 ∷ [] }

-- Every path is that of a keypair file.
abbrev settings : Settings
settings = record {
  load = λ _. ok cli_config;
  default = cli_config;
  value_t_string = text_of_value;
  signer_from_path = λ _ path _ wallet_manager. ok (key (first path), wallet_manager);
}

-- The command line with `--owner`, by a number.
abbrev with_owner : Text → ArgMatches
with_owner owner name = if str_eq name "owner" then some owner else none

start_one_key_example :
    (start
        (chain [])
        clap
        settings
        (λ _. client)
        (λ _ _. ok [])
        id
        (key 1)
        (key 2)
        (with_owner (3 ∷ []))
        "delete-sender"
        matches
      ≡ start
          (chain [])
          clap
          settings
          (λ _. client)
          (λ _ _. ok [])
          id
          (key 1)
          (key 2)
          (with_owner (4 ∷ []))
          "delete-sender"
          matches)
    × (start
          (chain [])
          clap
          settings
          (λ _. client)
          (λ _ _. ok [])
          id
          (key 1)
          (key 2)
          (with_owner (3 ∷ []))
          "delete-sender"
          matches
        ≡ start_with
            (chain [])
            clap
            settings
            (λ _. client)
            (λ _ _. ok [])
            id
            (key 1)
            (key 2)
            (key 9)
            cli_config
            none
            "delete-sender"
            matches)
unfolding read_cli_config
start_one_key_example =
    start_one_key (chain []) clap settings (λ _. client) (λ _ _. ok []) id (key 1) (key 2)
      (with_owner (3 ∷ [])) (with_owner (4 ∷ [])) "delete-sender" matches cli_config (key 9) refl
      refl refl (λ _ _ _. refl)

returns :
    start
      (chain [])
      clap
      settings
      (λ _. client)
      (λ _ _. ok [])
      id
      (key 1)
      (key 2)
      (with_owner (3 ∷ []))
      "delete-sender"
      matches
    ≡ returned
unfolding start ◌>>=◌ map_err return_if replicate take drop ◌==◌ read_delete_sender contains
returns = refl

start-returned_example :
    IsSent
      (chain [])
      clap
      settings
      (λ _. client)
      (λ _ _. ok [])
      id
      (key 1)
      (key 2)
      (with_owner (3 ∷ []))
      "delete-sender"
      matches
start-returned_example =
    start-returned (chain []) clap settings (λ _. client) (λ _ _. ok []) id (key 1) (key 2)
      (with_owner (3 ∷ [])) "delete-sender" matches returns
