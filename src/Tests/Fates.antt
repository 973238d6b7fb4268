-- ===== src/Tests/Fates.antt =====
-- What becomes of the accounts of the concrete chain.
use audius_reward_manager.Prelude.{inl, ◌∷◌, refl, arith}
use audius_reward_manager.State.{RewardManager}
use audius_reward_manager.Instructions.{transfer}
use audius_reward_manager.Processor.History.{Reach, here, next, instruction, others}
use audius_reward_manager.Processor.Managers.{Holds, Reach-Holds}
use audius_reward_manager.Processor.Fate.{HasSender, Fate, process_instruction-Fate}
use audius_reward_manager.Tests.Chain.{chain, program, chain-IsRuntime, encode_instruction}
use audius_reward_manager.Tests.Scene.{
  eth, info, key, manager_key, sender, sender_key, ledger, reward, votes, value,
}
use audius_reward_manager.Processor.Consented.{IsConsented, History-IsConsented}
use audius_reward_manager.Tests.Register.{
  IsKept, collected_sender, collects, history, accounts, after, paid, ledger-IsSolvent,
}

abbrev manager : RewardManager
manager = record { version = 1; token_account = key 40; manager = key 11; min_votes = 2 }

ledger-Holds : Holds (chain votes) program manager (ledger manager_key)
unfolding value
ledger-Holds = record { owned = refl; stored = refl; initialized = refl }

-- A payout, then a change by others, and then the collection of a sender's rent.
path : Reach (chain votes) program IsKept ledger collected_sender
path =
    next
      (next
        (next here (
          instruction (info manager_key ∷ accounts) (encode_instruction (transfer reward))
            ledger-IsSolvent paid))
        (others
          (λ k mine. record { same_owner = refl; same_bytes = refl; not_debited = omega arith })))
      collects

Reach-Holds_example : Holds (chain votes) program manager (collected_sender manager_key)
Reach-Holds_example =
    Reach-Holds (chain votes) program (chain-IsRuntime votes) manager IsKept manager_key (inl refl)
      ledger-Holds path

ledger-HasSender : HasSender (chain votes) program (sender_key (eth 21)) (sender 21) ledger
unfolding value
ledger-HasSender = record { owned = refl; stored = refl; funded = omega arith }

process_instruction-Fate_example : Fate (chain votes) program (sender_key (eth 21)) ledger after
process_instruction-Fate_example =
    process_instruction-Fate (chain votes) program (sender_key (eth 21)) (chain-IsRuntime votes)
      (sender 21) ledger ledger-HasSender (info manager_key ∷ accounts)
      (encode_instruction (transfer reward)) ledger-IsSolvent paid

History-IsConsented_example :
    IsConsented
      (chain votes)
      program
      IsKept
      manager
      ledger
      (record { reward_manager = manager_key; id = reward.id })
History-IsConsented_example =
    History-IsConsented (chain votes) program IsKept (chain-IsRuntime votes) manager manager_key
      (inl refl) ledger-Holds history (record { reward_manager = manager_key; id = reward.id })
      (inl refl) refl
