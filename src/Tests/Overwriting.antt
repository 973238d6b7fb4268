-- ===== src/Tests/Overwriting.antt =====
-- A vote for the sender 24 on the concrete chain, with the account of the sender 22 passed for it.
use audius_reward_manager.Prelude.{◌+◌, ◌≡◌, ◌≢◌, refl, [], ◌∷◌, ◌++◌}
use audius_reward_manager.Outcome.{Result, ok}
use audius_reward_manager.Error.{ProgramError}
use audius_reward_manager.State.{
  Pubkey, RewardManager, sender_account_len, new_sender_account, is_initialized_manager,
}
use audius_reward_manager.Consts.{sender_seed_prefix}
use audius_reward_manager.Runtime.{AccountInfo, Ledger}
use audius_reward_manager.Processor.Senders.{process_add_sender}
use audius_reward_manager.Processor.Senders.Accepted.{process_add_sender_overwrites}
use audius_reward_manager.Tests.Chain.{chain, program, encode_sender}
use audius_reward_manager.Tests.Scene.{
  key, eth, info, manager_key, sender_key, base, ledger, consents, signers, value,
}
use audius_reward_manager.Tests.Building.{pair_of}

abbrev victim : AccountInfo
victim = info (sender_key (eth 22))

-- The account at the derived address, which the runtime needs, is passed as the authority.
abbrev derived : AccountInfo
derived = info (sender_key (eth 24))

abbrev manager : RewardManager
manager = record { version = 1; token_account = key 40; manager = key 11; min_votes = 2 }

abbrev creation : Result ProgramError Ledger
creation =
    (chain consents).invoke_signed
      ((chain consents).create_account_with_seed_ix base.key (sender_key (eth 24))
        (255 ∷ manager_key) (sender_seed_prefix ++ eth 24) (sender_account_len + 1)
        sender_account_len program)
      (base ∷ victim ∷ derived ∷ []) ((manager_key ∷ (254 ∷ []) ∷ []) ∷ []) ledger

created : Ledger
unfolding value
created = value creation

creates : creation ≡ ok created
unfolding created
creates = refl

process_add_sender_overwrites_example :
    (w' : Ledger) × (process_add_sender
        (chain consents)
        program
        (info manager_key)
        derived
        base
        victim
        base
        base
        signers
        (eth 24)
        (eth 124)
        ledger
      ≡ ok w')
    × ((w' victim.key).bytes ≡ encode_sender (new_sender_account manager_key (eth 24) (eth 124)))
    × ((j : Pubkey) → victim.key ≢ j → w' j ≡ created j)
unfolding value created is_initialized_manager
process_add_sender_overwrites_example =
    process_add_sender_overwrites (chain consents) program (info manager_key) derived base victim
      base base signers (eth 24) (eth 124) ledger {manager = manager}
      {pair = pair_of (sender_seed_prefix ++ eth 24)} {rent = 0} refl refl refl refl refl creates
      refl
