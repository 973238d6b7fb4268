-- ===== src/Cli/Commands/Starting.antt =====
-- What the transaction of `command_init` does on the chain.
use audius_reward_manager.Prelude.{false, ℕ}
use audius_reward_manager.State.{Pubkey, RewardManager, new_reward_manager}
use audius_reward_manager.Instructions.{Instructions}
use audius_reward_manager.Instructions.Builders.{readonly}
use audius_reward_manager.Instructions.Builders.Agreement.{account_info}
use audius_reward_manager.Runtime.{AccountInfo, Env}
use audius_reward_manager.Utils.Address.{get_base_address}
use audius_reward_manager.Cli.Client.{Client}
use audius_reward_manager.Cli.Transaction.{Config}

module _ (env : Env) (client : Client) (config : Config)
    (id manager_acc token_acc token_mint : Pubkey) (min_votes : ℕ) where
  abbrev authority : AccountInfo
  authority = account_info (readonly (get_base_address env id manager_acc).0 false)

  abbrev started : RewardManager
  started = new_reward_manager token_acc config.owner min_votes
