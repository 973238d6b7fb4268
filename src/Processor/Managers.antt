-- ===== src/Processor/Managers.antt =====
-- An initialised reward manager: no handler of the program changes it.
use audius_reward_manager.Prelude.{◌≡◌, true, ◌∙◌, sym, subst, ap, arith}
use audius_reward_manager.Outcome.{ok, ok-injective}
use audius_reward_manager.State.{Pubkey, RewardManager, is_initialized_manager}
use audius_reward_manager.Runtime.{Account, Ledger, Env}
use audius_reward_manager.Runtime.Laws.{IsRuntime}
use audius_reward_manager.Processor.Stable.{IsStable}
use audius_reward_manager.Processor.History.{Reach, Reach-At}

module _ (env : Env) (program_id : Pubkey) where
  -- An account of the program that holds the initialised reward manager `m`.
  pub record Holds (m : RewardManager) (a : Account) : Type 0 where
    pub owned : a.owner ≡ program_id
    pub stored : env.reward_manager_borsh.try_from_slice a.bytes ≡ ok m
    pub initialized : is_initialized_manager m ≡ true

  module _ (laws : IsRuntime env program_id) (m : RewardManager) where
    Holds-IsStable : IsStable env program_id (Holds m)
    Holds-IsStable = record {
      owned = λ a h. h.owned;
      credited = λ a b k h. record {
        owned = k.same_owner ∙ h.owned;
        stored = ap env.reward_manager_borsh.try_from_slice k.same_bytes ∙ h.stored;
        initialized = h.initialized;
      };
      initialized = λ a m' h read.
          subst (λ x. is_initialized_manager x ≡ true) (ok-injective (sym h.stored ∙ read))
            h.initialized;
      no_sender = λ a s h read.
          omega
            (arith, laws.reward_manager_size a.bytes m h.stored, laws.sender_size a.bytes s read);
      no_room = λ a s h.
          omega (arith, laws.reward_manager_size a.bytes m h.stored, laws.sender_written s);
    }

    -- A reward manager is for ever what it was initialised to. Under the laws of the runtime, an
    -- account of the program that holds an initialised reward manager, and that rent collection
    -- spares, holds the same one, with its vault, manager and `min_votes`, after any successful
    -- instructions of the program, from ledgers whose lamports fit a `u64`, any changes by others, who
    -- may credit the program's accounts and nothing more, and any collection of rent elsewhere.
    pub Reach-Holds :
        (Spared : Pubkey → Type 0) (j : Pubkey) {w w' : Ledger}
        → Spared j
        → Holds m (w j)
        → Reach env program_id Spared w w'
        → Holds m (w' j)
    Reach-Holds Spared j spared holds path =
        Reach-At env program_id Spared laws (Holds m) Holds-IsStable j spared holds path
