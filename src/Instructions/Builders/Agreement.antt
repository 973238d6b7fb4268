-- ===== src/Instructions/Builders/Agreement.antt =====
-- An instruction that a client builds reaches the handler that it is meant for, with each account in
-- its place.
use audius_reward_manager.Processor.Senders.{
  process_create_sender, process_delete_sender, process_add_sender,
}
use audius_reward_manager.Processor.Init.{process_init_instruction}
use audius_reward_manager.Prelude.{ℕ, ◌≡◌, List, ◌++◌, true, false, map}
use audius_reward_manager.Outcome.{ok, Result, ◌>>=◌, map_err}
use audius_reward_manager.Error.{ProgramError}
use audius_reward_manager.State.{EthereumAddress, Pubkey}
use audius_reward_manager.Instructions.{Instructions, Transfer}
use audius_reward_manager.Runtime.{AccountInfo, AccountMeta, Instruction, Ledger, Env}
use audius_reward_manager.Consts.{sender_seed_prefix, transfer_seed_prefix}
use audius_reward_manager.Utils.Address.{AddressPair, get_base_address, get_address_pair}
use audius_reward_manager.Instructions.Builders.{
  init, create_sender, delete_sender, add_sender, transfer, readonly, writable,
}
use audius_reward_manager.Processor.Payout.{process_transfer}
use audius_reward_manager.Processor.Dispatch.{process_instruction}

-- The runtime hands a program an account for each `AccountMeta`, in their order.
abbrev pub account_info : AccountMeta → AccountInfo
account_info m = record { key = m.pubkey; is_signer = m.is_signer; is_writable = m.is_writable }

abbrev pub account_infos : Instruction → List AccountInfo
account_infos ix = map account_info ix.accounts

-- The accounts of those that vote.
abbrev pub accounts_of : List Pubkey → List AccountInfo
accounts_of keys = map account_info (map (λ (i : Pubkey). readonly i false) keys)

module _ (env : Env) (program_id reward_manager : Pubkey) (w : Ledger) where
  -- The program reads back the instruction that the client wrote.
  abbrev pub IsReadBack : Instructions → Type 0
  IsReadBack i = env.instructions_borsh.try_from_slice (env.instructions_borsh.serialize i) ≡ ok i

  -- A client builds an instruction and the chain runs it.
  abbrev pub submit : Result ProgramError Instruction → Result ProgramError Ledger
  submit built = built >>= λ ix. process_instruction env program_id (account_infos ix) ix.bytes w

  -- Where the reward manager and the Ethereum address derive the sender's account, and the program
  -- reads back what the client wrote: to submit what `create_sender` builds is to create the sender at
  -- the derived account, signed by the manager and the funder.
  pub create_sender-submit :
      (manager_account funder_account : Pubkey) (eth_address operator : EthereumAddress)
      (pair : AddressPair)
      → IsReadBack
          (Instructions.create_sender (record { eth_address = eth_address; operator = operator }))
      → get_address_pair env program_id reward_manager (sender_seed_prefix ++ eth_address) ≡ ok pair
      → submit (
          create_sender env program_id reward_manager manager_account funder_account eth_address
            operator)
        ≡ process_create_sender env program_id eth_address operator
            (account_info (readonly reward_manager false))
            (account_info (readonly manager_account true))
            (account_info (readonly pair.base.address false))
            (account_info (writable funder_account true))
            (account_info (writable pair.derive.address false))
            (account_info (readonly env.system_program_id false))
            (account_info (readonly env.sysvar_rent_id false))
            w
  unfolding process_instruction create_sender ◌>>=◌ map_err
  create_sender-submit manager_account funder_account eth_address operator pair read derived =
      rw derived (rw read)

  pub delete_sender-submit :
      (manager_account refunder_account : Pubkey) (eth_address : EthereumAddress)
      (pair : AddressPair)
      → IsReadBack Instructions.delete_sender
      → get_address_pair env program_id reward_manager (sender_seed_prefix ++ eth_address) ≡ ok pair
      → submit
          (delete_sender env program_id reward_manager manager_account refunder_account eth_address)
        ≡ process_delete_sender env program_id
            (account_info (readonly reward_manager false))
            (account_info (readonly manager_account true))
            (account_info (writable pair.derive.address false))
            (account_info (writable refunder_account false))
            (account_info (readonly env.system_program_id false))
            w
  unfolding process_instruction delete_sender ◌>>=◌ map_err
  delete_sender-submit manager_account refunder_account eth_address pair read derived =
      rw derived (rw read)

  -- Where the reward manager and the Ethereum address derive the sender's account, and the program
  -- reads back what the client wrote: to submit what `add_sender` builds is to add the sender at the
  -- derived account, with the given accounts, in order, as those that vote.
  pub add_sender-submit :
      (funder : Pubkey) (eth_address operator : EthereumAddress) (signers : List Pubkey)
      (pair : AddressPair)
      → IsReadBack
          (Instructions.add_sender (record { eth_address = eth_address; operator = operator }))
      → get_address_pair env program_id reward_manager (sender_seed_prefix ++ eth_address) ≡ ok pair
      → submit (add_sender env program_id reward_manager funder eth_address operator signers)
        ≡ process_add_sender env program_id
            (account_info (readonly reward_manager false))
            (account_info (readonly pair.base.address false))
            (account_info (writable funder true))
            (account_info (writable pair.derive.address false))
            (account_info (readonly env.sysvar_instructions_id false))
            (account_info (readonly env.sysvar_rent_id false))
            (accounts_of signers)
            eth_address
            operator
            w
  unfolding process_instruction add_sender ◌>>=◌ map_err
  add_sender-submit funder eth_address operator signers pair read derived = rw derived (rw read)

  -- Where the reward manager and the id derive the record of the payout, and the program reads back
  -- what the client wrote: to submit what `transfer` builds is to pay the reward with its record at
  -- the derived account, and the given accounts, in order, as those that vote.
  pub transfer-submit :
      (recipient vault_token_account bot_oracle funder : Pubkey) (senders : List Pubkey)
      (params : Transfer) (pair : AddressPair)
      → IsReadBack (Instructions.transfer params)
      → get_address_pair env program_id reward_manager (transfer_seed_prefix ++ params.id) ≡ ok pair
      → submit (
          transfer env program_id reward_manager recipient vault_token_account bot_oracle funder
            senders params)
        ≡ process_transfer env program_id
            (account_info (readonly reward_manager false))
            (account_info (readonly pair.base.address false))
            (account_info (writable recipient false))
            (account_info (writable vault_token_account false))
            (account_info (readonly bot_oracle false))
            (account_info (writable funder true))
            (account_info (writable pair.derive.address false))
            (account_info (readonly env.sysvar_instructions_id false))
            params
            (accounts_of senders)
            w
  unfolding process_instruction transfer ◌>>=◌ map_err
  transfer-submit recipient vault_token_account bot_oracle funder senders params pair read derived =
      rw derived (rw read)

  pub init-submit :
      (token_account mint manager : Pubkey) (min_votes : ℕ)
      → IsReadBack (Instructions.init_reward_manager (record { min_votes = min_votes }))
      → submit (init env program_id reward_manager token_account mint manager min_votes)
        ≡ process_init_instruction env program_id
            (account_info (writable reward_manager false))
            (account_info (writable token_account false))
            (account_info (readonly mint false))
            (account_info (readonly manager false))
            (account_info (readonly (get_base_address env program_id reward_manager).0 false))
            (account_info (readonly env.spl_token_id false))
            (account_info (readonly env.sysvar_rent_id false))
            min_votes
            w
  unfolding process_instruction init ◌>>=◌
  init-submit token_account mint manager min_votes read = rw read
