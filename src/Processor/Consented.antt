-- ===== src/Processor/Consented.antt =====
-- The votes that were listed for the rewards that have been paid.
use audius_reward_manager.Prelude.{
  ap, Bytes, Bytes, ◌≡◌, ◌≤◌, ◌⊎◌, inl, inr, sym, subst, ◌∙◌, List, [], ◌∷◌, length,
}
use audius_reward_manager.Outcome.{ok, ok-injective}
use audius_reward_manager.State.{Pubkey, RewardManager}
use audius_reward_manager.Instructions.{Instructions, Transfer}
use audius_reward_manager.Runtime.{AccountInfo, Ledger, Env}
use audius_reward_manager.Processor.Dispatch.{process_instruction}
use audius_reward_manager.Runtime.Laws.{IsRuntime}
use audius_reward_manager.Processor.History.{Reach, here, next, instruction}
use audius_reward_manager.Processor.Managers.{Holds, Reach-Holds}
use audius_reward_manager.Processor.Payout.Authorised.{Agreement, process_transfer_authorised}
use audius_reward_manager.Processor.Register.{
  Call, Reward, History, start, pays, goes_on, process_instruction-Call,
}

-- The reward stands in the register.
abbrev pub IsPaid : Reward → List Reward → Type 0
IsPaid r [] = ⊥
IsPaid r (q ∷ paid) = (r ≡ q) ⊎ IsPaid r paid

module _ (env : Env) (program_id : Pubkey) (Spared : Pubkey → Type 0) where
  -- At some time in the history, a transfer with the id of the reward, of its reward manager, was paid,
  -- and the account that was passed for it as the instructions sysvar listed an agreement of the
  -- senders and the oracle that were passed, with at least as many senders as `m` asks for. The code
  -- reads the data of this account and not its key, so these are signatures where it is the sysvar.
  pub record IsConsented (m : RewardManager) (w : Ledger) (r : Reward) : Type 0 where
    pub time : Ledger
    pub reached : Reach env program_id Spared w time
    pub manager_info : AccountInfo
    pub of_manager : manager_info.key ≡ r.reward_manager
    pub transfer_data : Transfer
    pub of_reward : transfer_data.id ≡ r.id
    pub after : Ledger
    pub call : Call env program_id Spared manager_info transfer_data time after
    pub enough : m.min_votes ≤ length call.senders
    pub agreement :
        Agreement env program_id manager_info call.i₅ call.i₈ transfer_data call.senders time

  -- A history is a path of steps.
  History-Reach :
      {w w' : Ledger} {paid : List Reward}
      → History env program_id Spared w w' paid
      → Reach env program_id Spared w w'
  History-Reach start = here
  History-Reach (pays manager rest input t past solvent read h) =
      next (History-Reach past) (instruction (manager ∷ rest) input solvent h)
  History-Reach (goes_on past step) = next (History-Reach past) step

  module _ (laws : IsRuntime env program_id) (m : RewardManager) (k : Pubkey)
      (spared : Spared k) where
    -- The consent to the reward that is paid last.
    pays-IsConsented :
        {w v v' : Ledger} {paid : List Reward} (manager : AccountInfo) (rest : List AccountInfo)
        (input : Bytes) (t : Transfer) (r : Reward)
        → Holds env program_id m (w k)
        → History env program_id Spared w v paid
        → env.instructions_borsh.try_from_slice input ≡ ok (Instructions.transfer t)
        → process_instruction env program_id (manager ∷ rest) input v ≡ ok v'
        → r ≡ record { reward_manager = manager.key; id = t.id }
        → r.reward_manager ≡ k
        → IsConsented m w r
    pays-IsConsented {v = v} {v' = v'} manager rest input t r holds past read h e at_k =
        let c = process_instruction-Call env program_id Spared manager rest input t v v' read h in
        let agreement =
          process_transfer_authorised env program_id manager c.i₂ c.i₃ c.i₄ c.i₅ c.i₆ c.i₇ c.i₈ t
            c.senders v c.paid in
        let of_manager : manager.key ≡ r.reward_manager = sym (ap (λ q. q.reward_manager) e) in
        let path = History-Reach past in
        let held = Reach-Holds env program_id laws m Spared k spared holds path in
        let same : agreement.manager ≡ m = ok-injective (
          sym agreement.manager_decoded
          ∙ ap (λ x. env.reward_manager_borsh.try_from_slice (v x).bytes) (of_manager ∙ at_k)
          ∙ held.stored) in
        record {
          time = v;
          reached = path;
          manager_info = manager;
          of_manager = of_manager;
          after = v';
          call = c;
          transfer_data = t;
          of_reward = sym (ap (λ q. q.id) e);
          enough = subst (λ x. x.min_votes ≤ length c.senders) same agreement.enough;
          agreement = agreement;
        }

    -- Every reward has had its vote, as the account that was passed as the instructions sysvar lists
    -- it. Under the laws of the runtime, for a reward manager that was initialised as `m` before the
    -- history began, and that rent collection spares: whatever the program does and in any order,
    -- between changes by others, who only credit the program's accounts, and collections of rent, for
    -- every reward of this reward manager that has been paid there was a time in the history at which a
    -- transfer with its id was paid and the data of the account that was passed for it as the
    -- instructions sysvar, at any key, named at least as many different genuine senders as `m` asks for
    -- as signers of the senders' message, and a genuine oracle as signer of the oracle's.
    pub History-IsConsented :
        {w w' : Ledger} {paid : List Reward}
        → Holds env program_id m (w k)
        → History env program_id Spared w w' paid
        → (r : Reward) → IsPaid r paid
        → r.reward_manager ≡ k
        → IsConsented m w r
    History-IsConsented holds start r standing at_k = absurd standing
    History-IsConsented holds (pays manager rest input t past solvent read h) r standing at_k =
        elim standing [
          | inl e ↦ pays-IsConsented manager rest input t r holds past read h e at_k
          | inr before ↦ History-IsConsented holds past r before at_k
        ]
    History-IsConsented holds (goes_on past step) r standing at_k =
        History-IsConsented holds past r standing at_k
