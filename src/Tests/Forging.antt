-- ===== src/Tests/Forging.antt =====
-- A payout on the concrete chain, for which an account at any key holds instructions with the zero
-- signature.
use audius_reward_manager.Prelude.{
  ◌≡◌, refl, List, [], ◌∷◌, ◌++◌, ◌==◌, replicate, take, drop, contains, arith,
}
use audius_reward_manager.Outcome.{◌>>=◌}
use audius_reward_manager.Consts.{transfer_seed_prefix, transfer_acc_balance, transfer_acc_space}
use audius_reward_manager.Runtime.{AccountInfo, Instruction}
use audius_reward_manager.Utils.Address.{get_address_pair}
use audius_reward_manager.Utils.Cpi.{token_transfer, create_account_with_seed}
use audius_reward_manager.Utils.Senders.Genuine.{Electorate, get_eth_addresses-eq_ok}
use audius_reward_manager.Utils.Verify.{
  senders_message, bot_oracle_message, build_verify_secp_transfer,
}
use audius_reward_manager.Utils.Verify.Ballots.{Ballots}
use audius_reward_manager.Processor.Votes.Accepts.{Election}
use audius_reward_manager.Processor.Payout.{process_transfer}
use audius_reward_manager.Processor.Payout.Pays.{IsPayable}
use audius_reward_manager.Processor.Payout.Forged.{process_transfer_forged}
use audius_reward_manager.Tests.Chain.{chain, program}
use audius_reward_manager.Tests.Scene.{
  key, eth, info, manager_key, sender, base, recipient, vault, oracle, payout_record, ledger,
  reward, signature, signers, value,
}
use audius_reward_manager.Tests.Honest.{addresses, operators}
use audius_reward_manager.Tests.Building.{pair_of}

abbrev ballots : List Instruction
ballots =
    let m = senders_message reward (eth 23) in signature (eth 21) m ∷ signature (eth 22) m ∷ []

abbrev oracle_ballot : Instruction
oracle_ballot = signature (eth 23) (bot_oracle_message reward)

abbrev forged : List Instruction
forged = ballots ++ oracle_ballot ∷ []

abbrev anyone : AccountInfo
anyone = info (key 77)

payable :
    IsPayable
      (chain forged)
      program
      (info manager_key)
      base
      recipient
      vault
      oracle
      base
      payout_record
      anyone
      reward
      signers
      ledger
      (sender 23)
unfolding value get_address_pair
payable = record {
  manager = record { version = 1; token_account = key 40; manager = key 11; min_votes = 2 };
  manager_decoded = refl;
  manager_initialized = refl;
  manager_owned = refl;
  oracle_genuine = record {
    decoded = refl;
    initialized = refl;
    owned = refl;
    derived = (_, refl, refl);
  };
  transfer_pair = pair_of (transfer_seed_prefix ++ reward.id);
  transfer_derived = refl;
  transfer_key = refl;
  mint = 50 ∷ [];
  mint_unpacked = refl;
  recipient_derived = refl;
}

cast : Ballots addresses (senders_message reward (eth 23)) ballots
unfolding take drop replicate senders_message
cast = (
  record { fits = omega arith; names = refl; carries = refl },
  (record { fits = omega arith; names = refl; carries = refl }, tt),
)

electorate : Electorate (chain forged) program manager_key ledger signers addresses operators
unfolding value
electorate = get_eth_addresses-eq_ok (chain forged) program manager_key ledger signers refl

election :
    Election
      (chain forged)
      program
      (info manager_key)
      anyone
      signers
      3
      (build_verify_secp_transfer (sender 23) reward)
      ledger
      forged
      addresses
      operators
unfolding value
election = record {
  reward_manager = record { version = 1; token_account = key 40; manager = key 11; min_votes = 2 };
  decoded = refl;
  enough = omega arith;
  listed = (refl, (refl, (refl, tt)));
  current = refl;
  some_before = omega arith;
  count = refl;
  electorate = electorate;
}

process_transfer_forged_example :
    process_transfer
      (chain forged)
      program
      (info manager_key)
      base
      recipient
      vault
      oracle
      base
      payout_record
      anyone
      reward
      signers
      ledger
    ≡ (token_transfer (chain forged) program manager_key vault recipient base 1000 ledger
        >>= λ paid.
            create_account_with_seed
              (chain forged)
              program
              base
              payout_record
              base
              manager_key
              (transfer_seed_prefix ++ reward.id)
              transfer_acc_balance
              transfer_acc_space
              program
              paid)
unfolding take drop replicate contains ◌==◌ bot_oracle_message
process_transfer_forged_example =
    process_transfer_forged (chain forged) program (info manager_key) base recipient vault oracle
      base payout_record anyone reward signers ledger addresses operators ballots oracle_ballot
      payable cast (record { fits = omega arith; names = refl; carries = refl }) refl refl refl
      election
