-- ===== src/Processor/Records.antt =====
-- The account that records a payout: no handler of the program changes it.
use audius_reward_manager.Prelude.{◌≤◌, ◌≡◌, [], length, ap, arith}
use audius_reward_manager.State.{Pubkey}
use audius_reward_manager.Runtime.{Account, Ledger, Env}
use audius_reward_manager.Runtime.Laws.{Keeps, KeepsOwned, IsRuntime}
use audius_reward_manager.Processor.Stable.{IsStable, KeepsOwned-At}

-- An account of the program with no data and with lamports.
pub record IsRecord (program_id : Pubkey) (a : Account) : Type 0 where
  pub owned : a.owner ≡ program_id
  pub empty : a.bytes ≡ []
  pub funded : 1 ≤ a.lamports

-- The account at `j` records a payout.
abbrev pub HasRecord : Pubkey → Pubkey → Ledger → Type 0
HasRecord program_id j w = IsRecord program_id (w j)

Keeps-IsRecord :
    (program_id : Pubkey) (a b : Account)
    → Keeps a b
    → IsRecord program_id a
    → IsRecord program_id b
Keeps-IsRecord program_id a b k r = ground arith

module _ (env : Env) (program_id : Pubkey) (laws : IsRuntime env program_id) where
  pub IsRecord-IsStable : IsStable env program_id (IsRecord program_id)
  IsRecord-IsStable = record {
    owned = λ a r. r.owned;
    credited = Keeps-IsRecord program_id;
    initialized =
        λ a m r h. absurd (omega (arith, ap length r.empty, laws.reward_manager_size a.bytes m h));
    no_sender = λ a s r h. omega (arith, ap length r.empty, laws.sender_size a.bytes s h);
    no_room = λ a s r. omega (arith, ap length r.empty, laws.sender_written s);
  }

  pub KeepsOwned-HasRecord :
      (j : Pubkey) (w w' : Ledger)
      → KeepsOwned program_id w w'
      → HasRecord program_id j w
      → HasRecord program_id j w'
  KeepsOwned-HasRecord j w w' k r =
      KeepsOwned-At env program_id laws (IsRecord program_id) IsRecord-IsStable j w w' k r
