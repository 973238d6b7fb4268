-- ===== src/Processor/Senders/Managed.antt =====
-- `CreateSender` and `DeleteSender` by the manager, with the accounts that they ask for.
use audius_reward_manager.Prelude.{false, Bool, ◌==◌, ◌≡◌, ◌≢◌, [], ◌∷◌, ◌++◌, true, ==_iff}
use audius_reward_manager.Outcome.{◌>>◌, ok, ◌>>=◌, return_if, map_err}
use audius_reward_manager.Error.{ProgramError, account_borrow_failed}
use audius_reward_manager.State.{
  Pubkey, EthereumAddress, RewardManager, SenderAccount, is_initialized_manager, new_sender_account,
  sender_account_len,
}
use audius_reward_manager.Runtime.{Rent, AccountInfo, Ledger, Env}
use audius_reward_manager.Runtime.Laws.{IsSolvent}
use audius_reward_manager.Consts.{sender_seed_prefix}
use audius_reward_manager.Utils.Address.{AddressPair, get_address_pair}
use audius_reward_manager.Processor.Accounts.{write_data, transfer_all}
use audius_reward_manager.Processor.Accounts.Writes.{==_ne}
use audius_reward_manager.Processor.Accounts.Moved.{Moved}
use audius_reward_manager.Processor.Senders.{process_create_sender, process_delete_sender}
use audius_reward_manager.Processor.Senders.Deletion.{process_delete_sender-eq_ok}

-- A guard that does not hold.
guarded :
    {A : Type 0} (b : Bool) (e : ProgramError) (a : A)
    → b ≡ false
    → (x : A) × ((return_if b e >> ok a) ≡ ok x)
unfolding ◌>>=◌ return_if
guarded b e a h = (a, rw h)

-- A transfer to another account succeeds.
transfer_all_succeeds :
    (source receiver : AccountInfo) (w : Ledger)
    → source.key ≢ receiver.key
    → (w' : Ledger) × (transfer_all source receiver w ≡ ok w')
unfolding transfer_all
transfer_all_succeeds source receiver w ne =
    guarded (source.key == receiver.key) account_borrow_failed _ (==_ne source.key receiver.key ne)

module _ (env : Env) (program_id : Pubkey) (w : Ledger) where
  -- The manager of an account's reward manager deletes it, to another account.
  pub process_delete_sender-managed :
      (reward_manager manager_account sender_info refunder sys_prog : AccountInfo)
      {sender : SenderAccount} {manager : RewardManager}
      → manager_account.is_signer ≡ true
      → env.sender_borsh.try_from_slice (w sender_info.key).bytes ≡ ok sender
      → sender.reward_manager ≡ reward_manager.key
      → env.reward_manager_borsh.try_from_slice (w reward_manager.key).bytes ≡ ok manager
      → manager.manager ≡ manager_account.key
      → sender_info.key ≢ refunder.key
      → IsSolvent w
      → (w' : Ledger) × (process_delete_sender env program_id reward_manager manager_account
            sender_info refunder sys_prog w
          ≡ ok w')
        × Moved sender_info.key refunder.key w w'
  unfolding process_delete_sender ◌>>=◌ return_if
  process_delete_sender-managed reward_manager manager_account sender_info refunder sys_prog signed
        decoded belongs decoded' managed ne solvent =
      let (w', moves) = transfer_all_succeeds sender_info refunder w ne in
      let runs : process_delete_sender env program_id reward_manager manager_account sender_info
            refunder sys_prog w
          ≡ ok w' =
        rw (signed, decoded, (==_iff _ _).1 belongs, decoded', (==_iff _ _).1 managed) moves in
      (
        w',
        runs,
        (process_delete_sender-eq_ok env program_id reward_manager manager_account sender_info
            refunder sys_prog w solvent runs).moved,
      )

  -- The manager of an initialised reward manager creates the sender at its derived address.
  pub process_create_sender-managed :
      (eth_address operator : EthereumAddress)
      (reward_manager manager_account authority funder sender_info sys_prog rent_info : AccountInfo)
      {manager : RewardManager} {pair : AddressPair} {rent : Rent}
      → manager_account.is_signer ≡ true
      → env.reward_manager_borsh.try_from_slice (w reward_manager.key).bytes ≡ ok manager
      → is_initialized_manager manager ≡ true
      → manager.manager ≡ manager_account.key
      → get_address_pair env program_id reward_manager.key (sender_seed_prefix ++ eth_address)
        ≡ ok pair
      → sender_info.key ≡ pair.derive.address
      → env.rent_from_account_info rent_info.key (w rent_info.key) ≡ ok rent
      → process_create_sender env program_id eth_address operator reward_manager manager_account
          authority funder sender_info sys_prog rent_info w
        ≡ (env.invoke_signed
              (env.create_account_with_seed_ix funder.key sender_info.key pair.base.address
                pair.derive.seed
                (env.minimum_balance rent sender_account_len)
                sender_account_len
                program_id)
              (funder ∷ sender_info ∷ authority ∷ [])
              ((reward_manager.key ∷ (pair.base.seed ∷ []) ∷ []) ∷ [])
              w
            >>= λ w'.
                write_data env sender_info.key
                  (env.sender_borsh.serialize
                    (new_sender_account reward_manager.key eth_address operator))
                  w')
  unfolding process_create_sender ◌>>=◌ return_if map_err
  process_create_sender-managed eth_address operator reward_manager manager_account authority funder
        sender_info sys_prog rent_info signed decoded initialized managed derived placed rented =
      rw (
        signed,
        decoded,
        initialized,
        (==_iff _ _).1 managed,
        derived,
        (==_iff _ _).1 placed,
        rented,
      )
