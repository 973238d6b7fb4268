-- ===== src/Tests/Register.antt =====
-- A history of the concrete chain that pays a reward.
use audius_reward_manager.Utils.Address.{AddressPair, get_address_pair}
use audius_reward_manager.State.{Pubkey}
use audius_reward_manager.Prelude.{
  length, ◌⊎◌, inl, inr, ◌==◌, ==_iff, Bool-cases, sym, ap, ◌≡◌, ◌≤◌, ◌≡◌, refl, List, [], ◌∷◌,
  Bytes, replicate, take, drop, arith,
}
use audius_reward_manager.Prelude.Predicates.{All}
use audius_reward_manager.Outcome.{ok-injective, ◌>>=◌, Result, ok}
use audius_reward_manager.Error.{ProgramError}
use audius_reward_manager.Instructions.{transfer}
use audius_reward_manager.Runtime.{AccountInfo, Ledger, update}
use audius_reward_manager.Runtime.Laws.{IsSolvent}
use audius_reward_manager.Processor.Dispatch.{process_instruction}
use audius_reward_manager.Processor.History.{Step, others, collected}
use audius_reward_manager.Processor.Register.{
  Reward, History, start, pays, goes_on, IsRegister, IsRecorded, History-IsRegister,
}
use audius_reward_manager.Tests.Chain.{first, chain, program, chain-IsRuntime, encode_instruction}
use audius_reward_manager.Tests.Scene.{
  eth, sender_key, info, manager_key, ledger, reward, votes, base, recipient, vault, oracle,
  payout_record, signers, value,
}

abbrev pub accounts : List AccountInfo
accounts = base ∷ recipient ∷ vault ∷ oracle ∷ base ∷ payout_record ∷ base ∷ base ∷ base ∷ signers

abbrev pub pay : Result ProgramError Ledger
pay =
    process_instruction (chain votes) program (info manager_key ∷ accounts)
      (encode_instruction (transfer reward)) ledger

pub after : Ledger
unfolding value process_instruction
after = value pay

pub paid : pay ≡ ok after
unfolding after
paid = refl

ledger-le : (k : Bytes) → (ledger k).lamports ≤ 5
unfolding update
ledger-le k = ground arith

pub ledger-IsSolvent : IsSolvent ledger
ledger-IsSolvent j k h = omega (arith, ledger-le j, ledger-le k)

read :
    (chain votes).instructions_borsh.try_from_slice (encode_instruction (transfer reward))
    ≡ ok (transfer reward)
unfolding replicate take drop
read = refl

abbrev pub rewards : List Reward
rewards = record { reward_manager = manager_key; id = reward.id } ∷ []

-- Rent collection spares the reward manager and the record.
abbrev pub IsKept : Pubkey → Type 0
IsKept k = (k ≡ manager_key) ⊎ (k ≡ payout_record.key)

-- It takes the account of a sender.
abbrev pub collected_sender : Ledger
collected_sender =
    update after (sender_key (eth 21)) (record { lamports = 0; bytes = []; owner = 4 ∷ [] })

not-IsKept : ¬ IsKept (sender_key (eth 21))
unfolding replicate
not-IsKept (inl e) = omega (arith, ap first e)
not-IsKept (inr e) = omega (arith, ap length e)

pub collects : Step (chain votes) program IsKept after collected_sender
unfolding update
collects = collected (sender_key (eth 21)) not-IsKept λ j ne.
    elim (Bool-cases (sender_key (eth 21) == j)) [
      | inl same ↦ absurd (ne (sym ((==_iff (sender_key (eth 21)) j).0 same)))
      | inr differs ↦ rw differs
    ]

pub history : History (chain votes) program IsKept ledger collected_sender rewards
history =
    goes_on
      (goes_on
        (pays (info manager_key) accounts (encode_instruction (transfer reward)) reward start
          ledger-IsSolvent read paid)
        (others
          (λ k mine. record { same_owner = refl; same_bytes = refl; not_debited = omega arith })))
      collects

History-IsRegister_example :
    IsRegister rewards × All (IsRecorded (chain votes) program IsKept collected_sender) rewards
unfolding get_address_pair ◌>>=◌
History-IsRegister_example =
    History-IsRegister (chain votes) program IsKept (chain-IsRuntime votes) history
      (λ pair h. inr (ap (λ (p : AddressPair). p.derive.address) (sym (ok-injective h))), tt)
