-- ===== src/Processor/Senders/Accepted.antt =====
-- What `process_add_sender` does after the vote.
use audius_reward_manager.Prelude.{◌≡◌, List, [], ◌∷◌, ◌++◌, ◌≢◌, ◌∙◌, length, true, arith}
use audius_reward_manager.Outcome.{ok, ◌>>=◌, return_if, map_err, bind-ok}
use audius_reward_manager.State.{
  Pubkey, EthereumAddress, RewardManager, is_initialized_manager, new_sender_account,
  sender_account_len,
}
use audius_reward_manager.Runtime.{Rent, AccountInfo, Ledger, Env}
use audius_reward_manager.Consts.{sender_seed_prefix}
use audius_reward_manager.Utils.Address.{AddressPair, get_address_pair}
use audius_reward_manager.Utils.Verify.{build_verify_secp_add_sender}
use audius_reward_manager.Processor.Accounts.{write_data}
use audius_reward_manager.Processor.Accounts.Writes.{write_data_whole, write_data_fits}
use audius_reward_manager.Processor.Votes.{check_secp_signs}
use audius_reward_manager.Processor.Senders.{process_add_sender}

module _ (env : Env) (program_id : Pubkey)
    (reward_manager_info authority_info funder_info new_sender_info : AccountInfo)
    (instructions_info rent_info : AccountInfo) (signers_info : List AccountInfo)
    (eth_address operator : EthereumAddress) (w : Ledger) where
  pub process_add_sender-accepted :
      {manager : RewardManager} {pair : AddressPair} {rent : Rent}
      → env.reward_manager_borsh.try_from_slice (w reward_manager_info.key).bytes ≡ ok manager
      → is_initialized_manager manager ≡ true
      → check_secp_signs env program_id reward_manager_info instructions_info signers_info
          (length signers_info)
          (build_verify_secp_add_sender reward_manager_info.key eth_address)
          w
        ≡ ok tt
      → get_address_pair env program_id reward_manager_info.key (sender_seed_prefix ++ eth_address)
        ≡ ok pair
      → env.rent_from_account_info rent_info.key (w rent_info.key) ≡ ok rent
      → process_add_sender env program_id reward_manager_info authority_info funder_info
          new_sender_info instructions_info rent_info signers_info eth_address operator w
        ≡ (env.invoke_signed
              (env.create_account_with_seed_ix funder_info.key pair.derive.address pair.base.address
                pair.derive.seed
                (env.minimum_balance rent sender_account_len)
                sender_account_len
                program_id)
              (funder_info ∷ new_sender_info ∷ authority_info ∷ [])
              ((reward_manager_info.key ∷ (pair.base.seed ∷ []) ∷ []) ∷ [])
              w
            >>= λ w'.
                write_data env new_sender_info.key
                  (env.sender_borsh.serialize
                    (new_sender_account reward_manager_info.key eth_address operator))
                  w')
  unfolding process_add_sender ◌>>=◌ return_if map_err
  process_add_sender-accepted decoded initialized accepts derived rent =
      rw (decoded, initialized, accepts, derived, rent)

  -- The account that is written is the one that was passed, whatever its address. For an initialised
  -- reward manager whose vote passes, where the address derives the pair and the runtime creates the
  -- account at the derived address: if the account that was passed for the new sender then has as
  -- many bytes as a sender has, its data become those of the new sender, and no other account
  -- changes after the creation.
  pub process_add_sender_overwrites :
      {manager : RewardManager} {pair : AddressPair} {rent : Rent} {created : Ledger}
      → env.reward_manager_borsh.try_from_slice (w reward_manager_info.key).bytes ≡ ok manager
      → is_initialized_manager manager ≡ true
      → check_secp_signs env program_id reward_manager_info instructions_info signers_info
          (length signers_info)
          (build_verify_secp_add_sender reward_manager_info.key eth_address)
          w
        ≡ ok tt
      → get_address_pair env program_id reward_manager_info.key (sender_seed_prefix ++ eth_address)
        ≡ ok pair
      → env.rent_from_account_info rent_info.key (w rent_info.key) ≡ ok rent
      → env.invoke_signed
          (env.create_account_with_seed_ix funder_info.key pair.derive.address pair.base.address
            pair.derive.seed
            (env.minimum_balance rent sender_account_len)
            sender_account_len
            program_id)
          (funder_info ∷ new_sender_info ∷ authority_info ∷ [])
          ((reward_manager_info.key ∷ (pair.base.seed ∷ []) ∷ []) ∷ [])
          w
        ≡ ok created
      → length (created new_sender_info.key).bytes
        ≡ length (
            env.sender_borsh.serialize
              (new_sender_account reward_manager_info.key eth_address operator))
      → (w' : Ledger) × (process_add_sender env program_id reward_manager_info authority_info
            funder_info new_sender_info instructions_info rent_info signers_info eth_address
            operator w
          ≡ ok w')
        × ((w' new_sender_info.key).bytes
            ≡ env.sender_borsh.serialize
                (new_sender_account reward_manager_info.key eth_address operator))
        × ((j : Pubkey) → new_sender_info.key ≢ j → w' j ≡ created j)
  process_add_sender_overwrites {created = created} decoded initialized accepts derived rented
        creates size =
      let v =
        env.sender_borsh.serialize
          (new_sender_account reward_manager_info.key eth_address operator) in
      let (w', writes, others) =
        write_data_fits env new_sender_info.key v created (omega (arith, size)) in
      (
        w',
        process_add_sender-accepted decoded initialized accepts derived rented
            ∙ bind-ok _ creates
            ∙ writes,
        (write_data_whole env new_sender_info.key v created size writes).1,
        others,
      )
