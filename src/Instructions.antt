-- ===== src/Instructions.antt =====
-- program/src/instruction.rs: the program's instructions and their parameters.
pub mod Builders
use audius_reward_manager.Prelude.{ℕ, Bytes}
use audius_reward_manager.State.{EthereumAddress}

pub record InitRewardManager : Type 0 where
  pub min_votes : ℕ

pub record CreateSender : Type 0 where
  pub eth_address : EthereumAddress
  pub operator : EthereumAddress

pub record AddSender : Type 0 where
  pub eth_address : EthereumAddress
  pub operator : EthereumAddress

-- `id` is a `String`, by its bytes in UTF-8; `amount` is a `u64`.
pub record Transfer : Type 0 where
  pub amount : ℕ
  pub id : Bytes
  pub eth_recipient : EthereumAddress

pub data Instructions : Type 0 where
  init_reward_manager : InitRewardManager → Instructions
  create_sender : CreateSender → Instructions
  delete_sender : Instructions
  add_sender : AddSender → Instructions
  transfer : Transfer → Instructions
