-- ===== src/State.antt =====
-- program/src/state.rs and the version of program/src/lib.rs: the two accounts that the program owns.
use audius_reward_manager.Prelude.{ℕ, Bool, not, Bytes, eqb}

abbrev pub Pubkey : Type 0
Pubkey = Bytes

-- program/src/utils.rs: `[u8; 20]`
abbrev pub EthereumAddress : Type 0
EthereumAddress = Bytes

-- program/src/lib.rs
abbrev pub program_version : ℕ
program_version = 1

abbrev pub uninitialized_version : ℕ
uninitialized_version = 0

pub record RewardManager : Type 0 where
  pub version : ℕ
  pub token_account : Pubkey
  pub manager : Pubkey
  pub min_votes : ℕ

-- `RewardManager::LEN`
abbrev pub reward_manager_len : ℕ
reward_manager_len = 66

-- `RewardManager::new`
unfoldable pub new_reward_manager : Pubkey → Pubkey → ℕ → RewardManager
new_reward_manager token_account manager min_votes = record {
  version = program_version;
  token_account = token_account;
  manager = manager;
  min_votes = min_votes;
}

-- `is_initialized` of `RewardManager`
unfoldable pub is_initialized_manager : RewardManager → Bool
is_initialized_manager m = not (eqb m.version uninitialized_version)

pub record SenderAccount : Type 0 where
  pub version : ℕ
  pub reward_manager : Pubkey
  pub eth_address : EthereumAddress
  pub operator : EthereumAddress

-- `SenderAccount::LEN`
abbrev pub sender_account_len : ℕ
sender_account_len = 73

-- `SenderAccount::new`
unfoldable pub new_sender_account : Pubkey → EthereumAddress → EthereumAddress → SenderAccount
new_sender_account reward_manager eth_address operator = record {
  version = program_version;
  reward_manager = reward_manager;
  eth_address = eth_address;
  operator = operator;
}

-- `is_initialized` of `SenderAccount`
unfoldable pub is_initialized_sender : SenderAccount → Bool
is_initialized_sender s = not (eqb s.version uninitialized_version)
