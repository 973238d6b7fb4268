-- ===== src/Processor/Dispatch.antt =====
-- program/src/processor.rs: `process_instruction`, which reads the instruction and hands its
-- accounts to a handler by their position.
pub mod Handlers
use audius_reward_manager.Prelude.{List, [], ◌∷◌, Bytes}
use audius_reward_manager.Outcome.{Result, ok, err, ◌>>=◌}
use audius_reward_manager.Error.{ProgramError, not_enough_account_keys}
use audius_reward_manager.State.{Pubkey}
use audius_reward_manager.Instructions.{
  Instructions, init_reward_manager, create_sender, delete_sender, add_sender, transfer,
}
use audius_reward_manager.Runtime.{AccountInfo, Ledger, Env}
use audius_reward_manager.Processor.Init.{process_init_instruction}
use audius_reward_manager.Processor.Senders.{
  process_create_sender, process_delete_sender, process_add_sender,
}
use audius_reward_manager.Processor.Payout.{process_transfer}

-- `next_account_info`: the next account and those after it
abbrev pub next_account_info :
    List AccountInfo → Result ProgramError (AccountInfo × List AccountInfo)
next_account_info [] = err not_enough_account_keys
next_account_info (account ∷ accounts) = ok (account, accounts)

module _ (env : Env) (program_id : Pubkey) where
  -- The `match` on the instruction.
  unfoldable pub dispatch : Instructions → List AccountInfo → Ledger → Result ProgramError Ledger
  dispatch (init_reward_manager params) i w = do
    (reward_manager, i) ← next_account_info i
    (token_account, i) ← next_account_info i
    (mint, i) ← next_account_info i
    (manager, i) ← next_account_info i
    (authority, i) ← next_account_info i
    (spl_token, i) ← next_account_info i
    (rent, i) ← next_account_info i
    process_init_instruction env program_id reward_manager token_account mint manager authority
        spl_token rent params.min_votes w
  dispatch (create_sender params) i w = do
    (reward_manager, i) ← next_account_info i
    (manager_account, i) ← next_account_info i
    (authority, i) ← next_account_info i
    (funder_account, i) ← next_account_info i
    (sender, i) ← next_account_info i
    (sys_prog, i) ← next_account_info i
    (rent, i) ← next_account_info i
    process_create_sender env program_id params.eth_address params.operator reward_manager
        manager_account authority funder_account sender sys_prog rent w
  dispatch delete_sender i w = do
    (reward_manager, i) ← next_account_info i
    (manager_account, i) ← next_account_info i
    (sender, i) ← next_account_info i
    (refunder, i) ← next_account_info i
    (sys_prog, i) ← next_account_info i
    process_delete_sender env program_id reward_manager manager_account sender refunder sys_prog w
  dispatch (add_sender params) i w = do
    (reward_manager, i) ← next_account_info i
    (authority, i) ← next_account_info i
    (funder, i) ← next_account_info i
    (new_sender, i) ← next_account_info i
    (instructions_info, i) ← next_account_info i
    (rent, i) ← next_account_info i
    (system_program, signers) ← next_account_info i
    process_add_sender env program_id reward_manager authority funder new_sender instructions_info
        rent signers params.eth_address params.operator w
  dispatch (transfer params) i w = do
    (reward_manager, i) ← next_account_info i
    (reward_manager_authority, i) ← next_account_info i
    (recipient, i) ← next_account_info i
    (vault_token_account, i) ← next_account_info i
    (bot_oracle, i) ← next_account_info i
    (funder, i) ← next_account_info i
    (transfer_acc_to_create, i) ← next_account_info i
    (instruction_info, i) ← next_account_info i
    (spl_token_program, i) ← next_account_info i
    (system_program, signers) ← next_account_info i
    process_transfer env program_id reward_manager reward_manager_authority recipient
        vault_token_account bot_oracle funder transfer_acc_to_create instruction_info params signers
        w

  unfoldable pub process_instruction :
      List AccountInfo → Bytes → Ledger → Result ProgramError Ledger
  unfolding dispatch
  process_instruction accounts input w = do
    instruction ← env.instructions_borsh.try_from_slice input
    dispatch instruction accounts w
