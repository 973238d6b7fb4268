-- ===== src/Tests/Ending.antt =====
-- The concrete chain panics on nothing.
use audius_reward_manager.Prelude.{
  ◌≤◌, length, take, drop, ◌==◌, replicate, subst, ℕ, zero, suc, ◌≢◌, ◌≡◌, List, [], ◌∷◌, get_elem?,
  arith, Bytes,
}
use audius_reward_manager.Prelude.Predicates.{All}
use audius_reward_manager.Outcome.{ok, panic, ok-injective}
use audius_reward_manager.Outcome.Returns.{Returns, Returns-ok, Returns-err, returns_rules}
use audius_reward_manager.Runtime.{update, AccountMeta, Instruction, Ledger}
use audius_reward_manager.Runtime.Returns.{HasReturns, IsListing}
use audius_reward_manager.Instructions.{Instructions, transfer}
use audius_reward_manager.Utils.Verify.Returns.{IsLong}
use audius_reward_manager.Processor.Dispatch.{process_instruction}
use audius_reward_manager.Processor.Dispatch.Handlers.{AllFrom, IsSysvarPlace}
use audius_reward_manager.Processor.Returns.{process_instruction-Returns}
use audius_reward_manager.Tests.Chain.{
  chain, program, encode_instruction, create, at, decode_instruction,
}
use audius_reward_manager.Tests.Scene.{base, info, manager_key, ledger, reward, votes}
use audius_reward_manager.Tests.Register.{accounts}

create-Returns : (metas : List AccountMeta) (d : Bytes) (w : Ledger) → Returns (create metas d w)
create-Returns [] d w = Returns-err _
create-Returns (to ∷ metas) [] w = Returns-err _
create-Returns (to ∷ metas) (l ∷ []) w = Returns-err _
create-Returns (to ∷ metas) (l ∷ n ∷ o) w = search returns_rules

decode_instruction-Returns : (d : Bytes) → Returns (decode_instruction d)
decode_instruction-Returns [] = Returns-err _
decode_instruction-Returns (tag ∷ d) = search returns_rules

at-Returns : (ixs : List Instruction) (i : ℕ) → Returns (at ixs i)
unfolding get_elem?
at-Returns [] i = Returns-err _
at-Returns (ix ∷ ixs) zero = Returns-ok ix
at-Returns (ix ∷ ixs) (suc i) = at-Returns ixs i

at-IsLong :
    (ixs : List Instruction) (i : ℕ) {ix : Instruction}
    → All IsLong ixs
    → at ixs i ≡ ok ix
    → IsLong ix
unfolding get_elem?
at-IsLong [] i all h = cc
at-IsLong (ix ∷ ixs) zero (long, all) h = subst IsLong (ok-injective h) long
at-IsLong (ix ∷ ixs) (suc i) (long, all) h = at-IsLong ixs i all h

chain-HasReturns : (ixs : List Instruction) → HasReturns (chain ixs)
chain-HasReturns ixs = record {
  decodes_manager = λ d. search returns_rules;
  decodes_sender = λ d. search returns_rules;
  decodes_instruction = decode_instruction-Returns;
  derives_address = λ _ _ _. Returns-ok _;
  loads_index = λ _ _. Returns-ok _;
  loads_instruction = λ i _. at-Returns ixs i;
  loads_rent = λ _ _. Returns-ok _;
  unpacks_mint = λ _. Returns-ok _;
  derives_recipient = λ _ _ _. Returns-ok _;
  builds_account = λ _ _ _ _. Returns-ok _;
  builds_transfer = λ _ _ _ _ _ _. Returns-ok _;
  invokes = λ _ _ _. Returns-ok _;
  invokes_signed = λ ix _ _ w. search (returns_rules, create-Returns);
}

votes-IsLong : All IsLong votes
unfolding replicate
votes-IsLong = (omega arith, (omega arith, (omega arith, tt)))

votes-IsListing : (d : Bytes) → 2 ≤ length d → IsListing (chain votes) d
votes-IsListing d h = record { indexed = h; long = λ i ix h _. at-IsLong votes i votes-IsLong h }

-- The account that is passed as the instructions sysvar has two bytes.
abbrev listed : Ledger
listed = update ledger base.key (record { lamports = 0; bytes = 0 ∷ 3 ∷ []; owner = 4 ∷ [] })

-- `Transfer` reads the account at place 7, which holds the vote.
listing :
    (instruction : Instructions)
    → decode_instruction (encode_instruction (transfer reward)) ≡ ok instruction
    → AllFrom
        (λ n i. IsSysvarPlace instruction n → IsListing (chain votes) (listed i.key).bytes)
        0
        (info manager_key ∷ accounts)
unfolding replicate update ◌==◌ take drop
listing instruction h =
    subst
      (λ (x : Instructions).
        AllFrom (λ n i. IsSysvarPlace x n → IsListing (chain votes) (listed i.key).bytes) 0
          (info manager_key ∷ accounts))
      (ok-injective h)
      (
        λ h. absurd (omega (arith, h)),
        (
          λ h. absurd (omega (arith, h)),
          (
            λ h. absurd (omega (arith, h)),
            (
              λ h. absurd (omega (arith, h)),
              (
                λ h. absurd (omega (arith, h)),
                (
                  λ h. absurd (omega (arith, h)),
                  (
                    λ h. absurd (omega (arith, h)),
                    (
                      λ h. votes-IsListing _ (omega arith),
                      (
                        λ h. absurd (omega (arith, h)),
                        (
                          λ h. absurd (omega (arith, h)),
                          (λ h. absurd (omega (arith, h)), (λ h. absurd (omega (arith, h)), tt)),
                        ),
                      ),
                    ),
                  ),
                ),
              ),
            ),
          ),
        ),
      )

process_instruction-Returns_example :
    process_instruction
      (chain votes)
      program
      (info manager_key ∷ accounts)
      (encode_instruction (transfer reward))
      listed
    ≢ panic
process_instruction-Returns_example =
    process_instruction-Returns (chain votes) program (chain-HasReturns votes) listed
      (info manager_key ∷ accounts) (encode_instruction (transfer reward)) listing
