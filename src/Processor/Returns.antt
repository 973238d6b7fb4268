-- ===== src/Processor/Returns.antt =====
-- The program ends without a panic.
use audius_reward_manager.Prelude.{◌≡◌, ◌≢◌, ℕ, List, Bytes}
use audius_reward_manager.Outcome.{ok, panic}
use audius_reward_manager.Outcome.Returns.{Returns, Returns-err, Returns-bind, returns_rules}
use audius_reward_manager.State.{Pubkey, EthereumAddress}
use audius_reward_manager.Instructions.{Instructions, Transfer}
use audius_reward_manager.Runtime.{AccountInfo, Ledger, Env}
use audius_reward_manager.Runtime.Returns.{HasReturns, IsListing}
use audius_reward_manager.Utils.Cpi.{token_transfer, create_account_with_seed}
use audius_reward_manager.Processor.Accounts.{write_data, transfer_all}
use audius_reward_manager.Processor.Init.{process_init_instruction}
use audius_reward_manager.Processor.Senders.{
  process_create_sender, process_delete_sender, process_add_sender,
}
use audius_reward_manager.Processor.Payout.{process_transfer}
use audius_reward_manager.Processor.Dispatch.{process_instruction}
use audius_reward_manager.Processor.Dispatch.Handlers.{dispatch-Handlers, AllFrom, IsSysvarPlace}
use audius_reward_manager.Processor.Votes.Returns.{
  is_owner-Returns, get_address_pair-Returns, add_vote-Returns, pay_vote-Returns,
}

transfer_all-Returns :
    (source receiver : AccountInfo) (w : Ledger) → Returns (transfer_all source receiver w)
unfolding transfer_all
transfer_all-Returns source receiver w = search returns_rules

module _ (env : Env) where
  write_data-Returns : (k : Pubkey) (v : Bytes) (w : Ledger) → Returns (write_data env k v w)
  unfolding write_data
  write_data-Returns k v w = search returns_rules

module _ (env : Env) (program_id : Pubkey) (has : HasReturns env) (w : Ledger) where
  init-Returns :
      (i₁ i₂ i₃ i₄ i₅ i₆ i₇ : AccountInfo) (min_votes : ℕ)
      → Returns (process_init_instruction env program_id i₁ i₂ i₃ i₄ i₅ i₆ i₇ min_votes w)
  unfolding process_init_instruction
  init-Returns i₁ i₂ i₃ i₄ i₅ i₆ i₇ min_votes =
      search
        (returns_rules, has.decodes_manager, has.builds_account, has.invokes, write_data-Returns)
        depth 10

  create-Returns :
      (eth_address operator : EthereumAddress) (i₁ i₂ i₃ i₄ i₅ i₆ i₇ : AccountInfo)
      → Returns (process_create_sender env program_id eth_address operator i₁ i₂ i₃ i₄ i₅ i₆ i₇ w)
  unfolding process_create_sender
  create-Returns eth_address operator i₁ i₂ i₃ i₄ i₅ i₆ i₇ =
      search
        (
          returns_rules, has.decodes_manager, has.loads_rent, has.invokes_signed,
          get_address_pair-Returns, write_data-Returns,
        )
        depth 12

  delete-Returns :
      (i₁ i₂ i₃ i₄ i₅ : AccountInfo)
      → Returns (process_delete_sender env program_id i₁ i₂ i₃ i₄ i₅ w)
  unfolding process_delete_sender
  delete-Returns i₁ i₂ i₃ i₄ i₅ =
      search (returns_rules, has.decodes_manager, has.decodes_sender, transfer_all-Returns) depth 10

  add-Returns :
      (i₁ i₂ i₃ i₄ i₅ i₆ : AccountInfo) (signers : List AccountInfo)
      (eth_address operator : EthereumAddress)
      → IsListing env (w i₅.key).bytes
      → Returns (process_add_sender env program_id i₁ i₂ i₃ i₄ i₅ i₆ signers eth_address operator w)
  unfolding process_add_sender
  add-Returns i₁ i₂ i₃ i₄ i₅ i₆ signers eth_address operator =
      search
        (
          returns_rules, has.decodes_manager, has.loads_rent, has.invokes_signed, add_vote-Returns,
          get_address_pair-Returns, write_data-Returns,
        )
        depth 12

  pay-Returns :
      (i₁ i₂ i₃ i₄ i₅ i₆ i₇ i₈ : AccountInfo) (t : Transfer) (senders : List AccountInfo)
      → IsListing env (w i₈.key).bytes
      → Returns (process_transfer env program_id i₁ i₂ i₃ i₄ i₅ i₆ i₇ i₈ t senders w)
  unfolding process_transfer token_transfer create_account_with_seed
  pay-Returns i₁ i₂ i₃ i₄ i₅ i₆ i₇ i₈ t senders long =
      search
        (
          returns_rules, has.decodes_manager, has.decodes_sender, has.unpacks_mint,
          has.derives_recipient, has.builds_transfer, has.invokes_signed, pay_vote-Returns,
          get_address_pair-Returns, is_owner-Returns,
        )
        depth 20

  -- The program does not panic. Where the functions of other crates report errors and do not panic,
  -- but for the one that reads the index of the current instruction, which needs two bytes; and where
  -- the account that `AddSender` takes at place 4 and `Transfer` at place 7 as the instructions
  -- sysvar has two bytes of data or more, which list signature instructions of at least 97 bytes
  -- only: `process_instruction` ends with a ledger or with an error, whatever its accounts and its
  -- bytes are.
  pub process_instruction-Returns :
      (accounts : List AccountInfo) (input : Bytes)
      → ((instruction : Instructions)
          → env.instructions_borsh.try_from_slice input ≡ ok instruction
          → AllFrom (λ n i. IsSysvarPlace instruction n → IsListing env (w i.key).bytes) 0 accounts)
      → process_instruction env program_id accounts input w ≢ panic
  unfolding process_instruction
  process_instruction-Returns accounts input listing =
      (Returns-bind (env.instructions_borsh.try_from_slice input) _ (has.decodes_instruction input)
        λ i read.
          dispatch-Handlers env program_id w (λ i. IsListing env (w i.key).bytes) Returns
            (Returns-err _)
            (record {
              init = init-Returns;
              create = create-Returns;
              delete = delete-Returns;
              add = add-Returns;
              pay = pay-Returns;
            })
            i accounts (listing i read)).at
