-- ===== src/Processor/Register.antt =====
-- The abstract view of the program: a register of the rewards that have been paid, which a payout
-- enters and nothing leaves.
use audius_reward_manager.Prelude.{◌≡◌, ◌≢◌, refl, sym, subst, ◌∙◌, List, [], ◌∷◌, ◌++◌, Bytes}
use audius_reward_manager.Prelude.Predicates.{All}
use audius_reward_manager.Outcome.{ok, bind-eq_ok, bind-ok}
use audius_reward_manager.State.{Pubkey}
use audius_reward_manager.Instructions.{Instructions, Transfer}
use audius_reward_manager.Consts.{transfer_seed_prefix}
use audius_reward_manager.Runtime.{AccountInfo, Ledger, Env}
use audius_reward_manager.Runtime.Laws.{IsSolvent, IsRuntime}
use audius_reward_manager.Utils.Address.{AddressPair, get_address_pair}
use audius_reward_manager.Processor.Records.{HasRecord}
use audius_reward_manager.Processor.Dispatch.{dispatch, process_instruction}
use audius_reward_manager.Processor.Payout.{process_transfer}
use audius_reward_manager.Processor.History.{Step, instruction, Step-HasRecord}
use audius_reward_manager.Processor.Once.{process_transfer_recorded, process_transfer_records}

-- A reward: the key of its reward manager and its id.
pub record Reward : Type 0 where
  pub reward_manager : Pubkey
  pub id : Bytes

-- In the register no reward stands twice.
abbrev pub IsRegister : List Reward → Type 0
IsRegister [] = Unit
IsRegister (r ∷ paid) = All (λ (q : Reward). q ≢ r) paid × IsRegister paid

module _ (env : Env) (program_id : Pubkey) (Spared : Pubkey → Type 0) where
  -- A history of the chain, with the rewards that it has paid, the last first.
  pub data History (w : Ledger) : Ledger → List Reward → Type 0 where
    start : History w w []
    pays :
        {v v' : Ledger} {paid : List Reward} (manager : AccountInfo) (rest : List AccountInfo)
        (input : Bytes) (t : Transfer)
        → History w v paid
        → IsSolvent v
        → env.instructions_borsh.try_from_slice input ≡ ok (Instructions.transfer t)
        → process_instruction env program_id (manager ∷ rest) input v ≡ ok v'
        → History w v' (record { reward_manager = manager.key; id = t.id } ∷ paid)
    goes_on :
        {v v' : Ledger} {paid : List Reward}
        → History w v paid
        → Step env program_id Spared v v'
        → History w v' paid

  -- The chain holds the record of the reward.
  pub record IsRecorded (w : Ledger) (r : Reward) : Type 0 where
    pub pair : AddressPair
    pub derived :
        get_address_pair env program_id r.reward_manager (transfer_seed_prefix ++ r.id) ≡ ok pair
    pub recorded : HasRecord program_id pair.derive.address w

  -- Rent collection spares the record of the reward.
  abbrev pub IsSpared : Reward → Type 0
  IsSpared r =
      (pair : AddressPair)
      → get_address_pair env program_id r.reward_manager (transfer_seed_prefix ++ r.id) ≡ ok pair
      → Spared pair.derive.address

  -- The handler that a transfer reaches.
  pub record Call (manager : AccountInfo) (t : Transfer) (w w' : Ledger) : Type 0 where
    pub i₂ : AccountInfo
    pub i₃ : AccountInfo
    pub i₄ : AccountInfo
    pub i₅ : AccountInfo
    pub i₆ : AccountInfo
    pub i₇ : AccountInfo
    pub i₈ : AccountInfo
    pub senders : List AccountInfo
    pub paid : process_transfer env program_id manager i₂ i₃ i₄ i₅ i₆ i₇ i₈ t senders w ≡ ok w'

  dispatch-Call :
      (manager : AccountInfo) (rest : List AccountInfo) (t : Transfer) (w : Ledger) {w' : Ledger}
      → dispatch env program_id (Instructions.transfer t) (manager ∷ rest) w ≡ ok w'
      → Call manager t w w'
  unfolding dispatch
  dispatch-Call manager rest t w h =
      let ((i₂, _), _, h₂) = bind-eq_ok _ _ (sym (bind-ok _ refl) ∙ h) in
      let ((i₃, _), _, h₃) = bind-eq_ok _ _ h₂ in
      let ((i₄, _), _, h₄) = bind-eq_ok _ _ h₃ in
      let ((i₅, _), _, h₅) = bind-eq_ok _ _ h₄ in
      let ((i₆, _), _, h₆) = bind-eq_ok _ _ h₅ in
      let ((i₇, _), _, h₇) = bind-eq_ok _ _ h₆ in
      let ((i₈, _), _, h₈) = bind-eq_ok _ _ h₇ in
      let (_, _, h₉) = bind-eq_ok _ _ h₈ in
      let ((_, senders), _, paid) = bind-eq_ok _ _ h₉ in
      record {
        i₂ = i₂;
        i₃ = i₃;
        i₄ = i₄;
        i₅ = i₅;
        i₆ = i₆;
        i₇ = i₇;
        i₈ = i₈;
        senders = senders;
        paid = paid;
      }

  pub process_instruction-Call :
      (manager : AccountInfo) (rest : List AccountInfo) (input : Bytes) (t : Transfer)
      (w w' : Ledger)
      → env.instructions_borsh.try_from_slice input ≡ ok (Instructions.transfer t)
      → process_instruction env program_id (manager ∷ rest) input w ≡ ok w'
      → Call manager t w w'
  unfolding process_instruction
  process_instruction-Call manager rest input t w w' read h =
      dispatch-Call manager rest t w (sym (bind-ok _ read) ∙ h)

  module _ (laws : IsRuntime env program_id) where
    All-IsRecorded :
        (paid : List Reward) (w w' : Ledger)
        → Step env program_id Spared w w'
        → All IsSpared paid
        → All (IsRecorded w) paid
        → All (IsRecorded w') paid
    All-IsRecorded [] w w' step spares all = tt
    All-IsRecorded (r ∷ paid) w w' step (spares, rest) (here, all) = (
      record {
        pair = here.pair;
        derived = here.derived;
        recorded =
            Step-HasRecord env program_id Spared laws here.pair.derive.address
              (spares here.pair here.derived) step here.recorded;
      },
      All-IsRecorded paid w w' step rest all,
    )

    -- A reward that is paid has no record yet.
    fresh :
        (paid : List Reward) (manager : AccountInfo) (t : Transfer) (w w' : Ledger)
        → Call manager t w w'
        → All (IsRecorded w) paid
        → All (λ (q : Reward). q ≢ record { reward_manager = manager.key; id = t.id }) paid
    fresh [] manager t w w' c all = tt
    fresh (r ∷ paid) manager t w w' c (here, all) = (
      λ e.
          process_transfer_recorded env program_id laws manager c.i₂ c.i₃ c.i₄ c.i₅ c.i₆ c.i₇ c.i₈ t
            c.senders w w' here.pair
            (subst
              (λ (q : Reward).
                get_address_pair env program_id q.reward_manager (transfer_seed_prefix ++ q.id)
                ≡ ok here.pair)
              e here.derived)
            here.recorded c.paid,
      fresh paid manager t w w' c all,
    )

    -- Under the laws of the runtime, whatever the program does and in any order, between changes by
    -- others, who only credit the program's accounts, and collections of rent: if rent collection
    -- spares the records of the rewards that have been paid, then these rewards are a register, in
    -- which none stands twice, and the chain holds the record of each of them.
    pub History-IsRegister :
        {w w' : Ledger} {paid : List Reward}
        → History w w' paid
        → All IsSpared paid
        → IsRegister paid × All (IsRecorded w') paid
    History-IsRegister start spares = (tt, tt)
    History-IsRegister (pays {v} {v'} {paid} manager rest input t past solvent read h)
          (spared, spares) =
        let (register, all) = History-IsRegister past spares in
        let c = process_instruction-Call manager rest input t v v' read h in
        let (pair, derived, recorded) =
          process_transfer_records env program_id laws manager c.i₂ c.i₃ c.i₄ c.i₅ c.i₆ c.i₇ c.i₈ t
            c.senders v v' c.paid in
        (
          (fresh paid manager t v v' c all, register),
          (
            record { pair = pair; derived = derived; recorded = recorded },
            All-IsRecorded paid v v' (instruction (manager ∷ rest) input solvent h) spares all,
          ),
        )
    History-IsRegister (goes_on {v} {v'} {paid} past step) spares =
        let (register, all) = History-IsRegister past spares in
        (register, All-IsRecorded paid v v' step spares all)
