-- ===== src/Tests/Managing.antt =====
-- Transactions of the concrete client that manage senders on the concrete chain.
use audius_reward_manager.Prelude.{
  ◌==◌, contains, ◌≡◌, refl, [], ◌++◌, some, Option, replicate, take, drop,
}
use audius_reward_manager.Outcome.{Result, ok, ◌>>=◌, map_err, return_if}
use audius_reward_manager.Consts.{sender_seed_prefix}
use audius_reward_manager.Runtime.{Ledger}
use audius_reward_manager.Processor.Accounts.Moved.{Moved}
use audius_reward_manager.Utils.Address.{get_address_pair}
use audius_reward_manager.Cli.Client.{Error}
use audius_reward_manager.Cli.Transaction.{Config, OnchainTransaction}
use audius_reward_manager.Cli.Commands.{command_create_sender, command_delete_sender}
use audius_reward_manager.Cli.Commands.Managing.{Runs, command_delete_sender_deletes}
use audius_reward_manager.Tests.Chain.{chain, program}
use audius_reward_manager.Tests.Scene.{key, eth, manager_key, sender_key, ledger, value}
use audius_reward_manager.Tests.Desk.{client, digits}
use audius_reward_manager.Tests.Building.{pair_of}
use audius_reward_manager.Tests.Commands.{transaction_of}
use audius_reward_manager.Tests.Register.{ledger-IsSolvent}

abbrev config : Config
config = record { owner = key 11; fee_payer = key 9 }

-- The sender 21.
abbrev delete : Result Error (Option OnchainTransaction)
delete = command_delete_sender (chain []) client config program manager_key (digits b'5' 20)

deletion : OnchainTransaction
unfolding command_delete_sender ◌>>=◌ map_err return_if replicate take drop
deletion = transaction_of delete

deletes : delete ≡ ok (some deletion)
unfolding deletion contains ◌==◌
deletes = refl

command_delete_sender_deletes_example :
    (w' : Ledger) × Runs (chain []) client config program deletion [] ledger w'
    × Moved (sender_key (eth 21)) (key 9) ledger w'
unfolding value get_address_pair
command_delete_sender_deletes_example =
    command_delete_sender_deletes (chain []) client config program manager_key (digits b'5' 20)
      {pair = pair_of (sender_seed_prefix ++ eth 21)} ledger deletes refl refl refl refl refl refl
      refl (λ e. cc) ledger-IsSolvent

-- The new sender 24 with the operator 25.
abbrev create : Result Error (Option OnchainTransaction)
create =
    command_create_sender (chain []) client config program manager_key (digits b'8' 20)
      (digits b'9' 20)

creation : OnchainTransaction
unfolding command_create_sender ◌>>=◌ map_err return_if replicate take drop
creation = transaction_of create
