-- ===== src/Tests/Payment.antt =====
-- A transaction of the concrete client that pays a reward on the concrete chain.
use audius_reward_manager.Prelude.{
  ◌==◌, true, false, ◌≡◌, refl, [], ◌∷◌, ◌++◌, replicate, take, drop,
}
use audius_reward_manager.Outcome.{ok, ◌>>=◌}
use audius_reward_manager.Consts.{transfer_seed_prefix, transfer_acc_balance, transfer_acc_space}
use audius_reward_manager.Instructions.{Instructions}
use audius_reward_manager.Instructions.Builders.{readonly, writable}
use audius_reward_manager.Instructions.Builders.Agreement.{account_info, account_infos, IsReadBack}
use audius_reward_manager.Utils.Address.{get_address_pair}
use audius_reward_manager.Utils.Cpi.{token_transfer, create_account_with_seed}
use audius_reward_manager.Processor.Dispatch.{process_instruction}
use audius_reward_manager.Runtime.{Instruction, update}
use audius_reward_manager.Cli.Commands.Payment.{IsReady, command_transfer_pays}
use audius_reward_manager.Tests.Chain.{chain, program}
use audius_reward_manager.Tests.Scene.{
  key, manager_key, ledger, reward, recipient, vault, oracle, payout_record, value,
}
use audius_reward_manager.Tests.Desk.{digits, client, client-HasSizes}
use audius_reward_manager.Tests.Honest.{before}
use audius_reward_manager.Tests.Building.{pair_of}
use audius_reward_manager.Tests.Rewarding.{
  config, accounts, plan, honest, sends, finds, transaction, recipient_text,
}

reads_back : IsReadBack (chain before) program manager_key ledger (Instructions.transfer reward)
unfolding take drop replicate
reads_back = refl

derives :
    get_address_pair (chain before) program manager_key (transfer_seed_prefix ++ reward.id)
    ≡ ok (pair_of (transfer_seed_prefix ++ reward.id))
unfolding get_address_pair ◌>>=◌
derives = refl

ready :
    IsReady
      (chain before)
      client
      client-HasSizes
      config
      program
      manager_key
      oracle.key
      accounts
      ledger
unfolding value get_address_pair update ◌==◌ replicate take drop
ready = record {
  manager_answered = refl;
  vault_answered = refl;
  manager_initialized = refl;
  manager_owned = refl;
  oracle_genuine = record {
    decoded = refl;
    initialized = refl;
    owned = refl;
    derived = (_, refl, refl);
  };
}

command_transfer_pays_example :
    (last : Instruction) × (transaction.instructions
      ≡ ((accounts.instructions ++ plan.signed) ++ plan.oracle_signed ∷ []) ++ last ∷ [])
    × (process_instruction (chain before) program (account_infos last) last.bytes ledger ≡ (
        token_transfer
          (chain before)
          program
          manager_key
          (account_info (writable vault.key false))
          (account_info (writable recipient.key false))
          (account_info (readonly (255 ∷ manager_key) false))
          1000
          ledger
        >>= λ paid.
            create_account_with_seed
              (chain before)
              program
              (account_info (writable (key 9) true))
              (account_info (writable payout_record.key false))
              (account_info (readonly (255 ∷ manager_key) false))
              manager_key
              (transfer_seed_prefix ++ reward.id)
              transfer_acc_balance
              transfer_acc_space
              program
              paid))
command_transfer_pays_example =
    command_transfer_pays (chain before) client client-HasSizes config program manager_key
      oracle.key accounts ledger (digits b'7' 32) [] reward.id recipient_text 1000
      (pair_of (transfer_seed_prefix ++ reward.id)) sends finds plan derives reads_back ready honest
