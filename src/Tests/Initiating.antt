-- ===== src/Tests/Initiating.antt =====
-- A transaction of the concrete client that starts a reward manager on the concrete chain.
use audius_reward_manager.Prelude.{[], Option}
use audius_reward_manager.Outcome.{Result, ok, ◌>>=◌, map_err, return_if}
use audius_reward_manager.Cli.Client.{Error, Client}
use audius_reward_manager.Cli.Transaction.{Config, OnchainTransaction}
use audius_reward_manager.Cli.Commands.{command_init}
use audius_reward_manager.Tests.Chain.{chain, program}
use audius_reward_manager.Tests.Scene.{key}
use audius_reward_manager.Tests.Desk.{client}
use audius_reward_manager.Tests.Managers.{fresh_key}
use audius_reward_manager.Tests.Commands.{transaction_of}

abbrev config : Config
config = record { owner = key 9; fee_payer = key 9 }

-- The client of a fee payer with enough lamports.
abbrev rich_client : Client
rich_client = record client { get_balance = λ _. ok 1000 }

abbrev init : Result Error (Option OnchainTransaction)
init = command_init (chain []) rich_client config program fresh_key (key 40) (key 50) 2

initiation : OnchainTransaction
unfolding command_init ◌>>=◌ map_err return_if
initiation = transaction_of init
