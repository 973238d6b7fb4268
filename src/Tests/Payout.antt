-- ===== src/Tests/Payout.antt =====
-- A payout on the concrete chain, and the theorems on payouts at it.
use audius_reward_manager.Consts.{transfer_seed_prefix}
use audius_reward_manager.Utils.Address.{AddressPair, get_address_pair}
use audius_reward_manager.State.{Pubkey}
use audius_reward_manager.Prelude.{[], ◌∷◌, ◌++◌, sym, ap, ◌≡◌, ◌≢◌, refl, arith}
use audius_reward_manager.Outcome.{ok-injective, ◌>>=◌, Result, ok}
use audius_reward_manager.Error.{ProgramError}
use audius_reward_manager.Runtime.{update, Ledger}
use audius_reward_manager.Processor.Payout.{process_transfer}
use audius_reward_manager.Processor.Payout.Authorised.{Agreement, process_transfer_authorised}
use audius_reward_manager.Processor.History.{Reach, here, next, others}
use audius_reward_manager.Processor.Once.{no_second_payout}
use audius_reward_manager.Tests.Chain.{chain, program, chain-IsRuntime}
use audius_reward_manager.Tests.Scene.{
  info, manager_key, ledger, reward, votes, base, recipient, vault, oracle, payout_record, signers,
  value,
}

abbrev pay : Ledger → Result ProgramError Ledger
pay w =
    process_transfer (chain votes) program (info manager_key) base recipient vault oracle base
      payout_record base reward signers w

after : Ledger
unfolding value
after = value (pay ledger)

-- The payout succeeds.
pays : pay ledger ≡ ok after
unfolding after
pays = refl

-- Rent collection spares the record.
abbrev IsTheRecord : Pubkey → Type 0
IsTheRecord k = k ≡ payout_record.key

wait : Reach (chain votes) program IsTheRecord after after
wait =
    next here (
      others (λ k mine. record { same_owner = refl; same_bytes = refl; not_debited = omega arith }))

process_transfer_authorised_example :
    Agreement (chain votes) program (info manager_key) oracle base reward signers ledger
process_transfer_authorised_example =
    process_transfer_authorised (chain votes) program (info manager_key) base recipient vault oracle
      base payout_record base reward signers ledger pays

spares :
    (pair : AddressPair)
    → get_address_pair (chain votes) program manager_key (transfer_seed_prefix ++ reward.id)
      ≡ ok pair
    → IsTheRecord pair.derive.address
unfolding get_address_pair ◌>>=◌
spares pair h = ap (λ (p : AddressPair). p.derive.address) (sym (ok-injective h))

-- Once the record is gone, the same reward is paid again.
abbrev forgotten : Ledger
forgotten = update after payout_record.key (record { lamports = 0; bytes = []; owner = 4 ∷ [] })

after_again : Ledger
unfolding value after
after_again = value (pay forgotten)

pays_again : pay forgotten ≡ ok after_again
unfolding after_again
pays_again = refl

no_second_payout_example : pay after ≢ ok ledger
no_second_payout_example =
    no_second_payout (chain votes) program (chain-IsRuntime votes) (info manager_key) base recipient
      vault oracle base payout_record base reward signers (info manager_key) base recipient vault
      oracle base payout_record base reward signers ledger after after ledger IsTheRecord spares
      refl refl pays wait
