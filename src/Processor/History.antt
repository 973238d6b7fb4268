-- ===== src/Processor/History.antt =====
-- The program over time: any instructions, in any order, between those of other programs.
use audius_reward_manager.Prelude.{◌≢◌, sym, subst, ◌≡◌, List, Bytes}
use audius_reward_manager.Outcome.{ok}
use audius_reward_manager.State.{Pubkey}
use audius_reward_manager.Runtime.{Account, AccountInfo, Ledger, Env}
use audius_reward_manager.Runtime.Laws.{KeepsOwned, IsSolvent, IsRuntime}
use audius_reward_manager.Processor.Stable.{IsStable, KeepsOwned-At, process_instruction-At}
use audius_reward_manager.Processor.Records.{IsRecord, HasRecord, IsRecord-IsStable}
use audius_reward_manager.Processor.Dispatch.{process_instruction}

-- The other accounts stay as they are.
abbrev pub IsOnly : Pubkey → Ledger → Ledger → Type 0
IsOnly k w w' = (j : Pubkey) → j ≢ k → w' j ≡ w j

-- Rent collection takes lamports of an account that is not exempt from rent, and the account with the
-- last of them. It spares the accounts of `Spared`.
module _ (env : Env) (program_id : Pubkey) (Spared : Pubkey → Type 0) where
  -- One successful instruction of this program; or a change by others, who may only credit the
  -- accounts of this one; or the collection of rent, which may do anything to an account that it does
  -- not spare. (A failed instruction changes nothing; all lamports before an instruction fit a `u64`.)
  pub data Step (w w' : Ledger) : Type 0 where
    instruction :
        (accounts : List AccountInfo) (input : Bytes)
        → IsSolvent w
        → process_instruction env program_id accounts input w ≡ ok w'
        → Step w w'
    others : KeepsOwned program_id w w' → Step w w'
    collected : (k : Pubkey) → ¬ Spared k → IsOnly k w w' → Step w w'

  pub data Reach (w : Ledger) : Ledger → Type 0 where
    here : Reach w w
    next : {v v' : Ledger} → Reach w v → Step v v' → Reach w v'

  module _ (laws : IsRuntime env program_id) (P : Account → Type 0)
      (stable : IsStable env program_id P) (j : Pubkey) (spared : Spared j) where
    Step-At : {w w' : Ledger} → Step w w' → P (w j) → P (w' j)
    Step-At {w} {w'} (instruction accounts input solvent h) p =
        (process_instruction-At env program_id laws P stable j accounts input w solvent p).at w' h
    Step-At {w} {w'} (others k) p = KeepsOwned-At env program_id laws P stable j w w' k p
    Step-At {w} {w'} (collected k taken only) p =
        subst P (sym (only j (λ e. taken (subst Spared e spared)))) p

    pub Reach-At : {w w' : Ledger} → P (w j) → Reach w w' → P (w' j)
    Reach-At p here = p
    Reach-At p (next path step) = Step-At step (Reach-At p path)

  module _ (laws : IsRuntime env program_id) (j : Pubkey) (spared : Spared j) where
    pub Step-HasRecord :
        {w w' : Ledger} → Step w w' → HasRecord program_id j w → HasRecord program_id j w'
    Step-HasRecord =
        Step-At laws (IsRecord program_id) (IsRecord-IsStable env program_id laws) j spared

    -- Under the laws of the runtime a payout's record that rent collection spares stays a record
    -- through any successful instructions of the program, from ledgers whose lamports fit a `u64`, any
    -- changes by others, who may credit the program's accounts and nothing more, and any collection
    -- of rent.
    pub Reach-HasRecord :
        {w w' : Ledger} → HasRecord program_id j w → Reach w w' → HasRecord program_id j w'
    Reach-HasRecord =
        Reach-At laws (IsRecord program_id) (IsRecord-IsStable env program_id laws) j spared
