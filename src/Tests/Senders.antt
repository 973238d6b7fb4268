-- ===== src/Tests/Senders.antt =====
-- Senders created, deleted and added on the concrete chain, and the theorems on them.
use audius_reward_manager.Prelude.{◌≤◌, ◌≡◌, refl, [], arith}
use audius_reward_manager.Outcome.{Result, ok}
use audius_reward_manager.Error.{ProgramError}
use audius_reward_manager.State.{Pubkey}
use audius_reward_manager.Runtime.{Ledger, update}
use audius_reward_manager.Runtime.Laws.{IsSolvent}
use audius_reward_manager.Processor.Senders.{
  process_create_sender, process_delete_sender, process_add_sender,
}
use audius_reward_manager.Processor.Senders.Addition.{Consent, process_add_sender_authorised}
use audius_reward_manager.Processor.Senders.Creation.{Creation, process_create_sender-eq_ok}
use audius_reward_manager.Processor.Senders.Deletion.{Deletion, process_delete_sender-eq_ok}
use audius_reward_manager.Tests.Chain.{chain, program, chain-IsRuntime}
use audius_reward_manager.Tests.Scene.{
  key, eth, info, manager_key, sender_key, ledger, consents, base, vault, signers, value,
}

abbrev create : Result ProgramError Ledger
create =
    process_create_sender (chain []) program (eth 24) (eth 124) (info manager_key) (info (key 11))
      base base (info (sender_key (eth 24))) base base ledger

created : Ledger
unfolding value
created = value create

creates : create ≡ ok created
unfolding created
creates = refl

process_create_sender-eq_ok_example :
    Creation
      (chain [])
      program
      (eth 24)
      (eth 124)
      (info manager_key)
      (info (key 11))
      base
      base
      (info (sender_key (eth 24)))
      base
      base
      ledger
      created
unfolding value
process_create_sender-eq_ok_example =
    process_create_sender-eq_ok (chain []) program (eth 24) (eth 124) (info manager_key)
      (info (key 11)) base base (info (sender_key (eth 24))) base base ledger (chain-IsRuntime [])
      refl refl creates

abbrev add : Result ProgramError Ledger
add =
    process_add_sender (chain consents) program (info manager_key) base base
      (info (sender_key (eth 24))) base base signers (eth 24) (eth 124) ledger

added : Ledger
unfolding value
added = value add

adds : add ≡ ok added
unfolding added
adds = refl

process_add_sender_authorised_example :
    Consent
      (chain consents)
      program
      (info manager_key)
      base
      base
      (info (sender_key (eth 24)))
      base
      base
      signers
      (eth 24)
      (eth 124)
      ledger
process_add_sender_authorised_example =
    process_add_sender_authorised (chain consents) program (info manager_key) base base
      (info (sender_key (eth 24))) base base signers (eth 24) (eth 124) ledger adds

abbrev delete : Result ProgramError Ledger
delete =
    process_delete_sender (chain []) program (info manager_key) (info (key 11))
      (info (sender_key (eth 21))) vault base ledger

deleted : Ledger
unfolding value
deleted = value delete

deletes : delete ≡ ok deleted
unfolding deleted
deletes = refl

ledger-le : (k : Pubkey) → (ledger k).lamports ≤ 5
unfolding update
ledger-le k = ground arith

ledger-IsSolvent : IsSolvent ledger
ledger-IsSolvent j k h = omega (arith, ledger-le j, ledger-le k)

process_delete_sender-eq_ok_example :
    Deletion
      (chain [])
      program
      (info manager_key)
      (info (key 11))
      (info (sender_key (eth 21)))
      vault
      base
      ledger
      deleted
process_delete_sender-eq_ok_example =
    process_delete_sender-eq_ok (chain []) program (info manager_key) (info (key 11))
      (info (sender_key (eth 21))) vault base ledger ledger-IsSolvent deletes
