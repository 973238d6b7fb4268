-- ===== src/Processor/Dispatch/Handlers.antt =====
-- What every handler has, `process_instruction` has.
use audius_reward_manager.Prelude.{suc, ◌≡◌, refl, ℕ, List, [], ◌∷◌, Bytes}
use audius_reward_manager.Outcome.{Result, err, ◌>>=◌}
use audius_reward_manager.Outcome.Ensures.{Ensures, Ensures-bind_any}
use audius_reward_manager.Error.{ProgramError, not_enough_account_keys}
use audius_reward_manager.State.{Pubkey, EthereumAddress}
use audius_reward_manager.Instructions.{
  Instructions, Transfer, init_reward_manager, create_sender, delete_sender, add_sender, transfer,
}
use audius_reward_manager.Runtime.{AccountInfo, Ledger, Env}
use audius_reward_manager.Processor.Init.{process_init_instruction}
use audius_reward_manager.Processor.Senders.{
  process_create_sender, process_delete_sender, process_add_sender,
}
use audius_reward_manager.Processor.Payout.{process_transfer}
use audius_reward_manager.Processor.Dispatch.{next_account_info, dispatch, process_instruction}

-- The place of the account that is read as the instructions sysvar.
abbrev pub IsSysvarPlace : Instructions → ℕ → Type 0
IsSysvarPlace (init_reward_manager params) n = ⊥
IsSysvarPlace (create_sender params) n = ⊥
IsSysvarPlace delete_sender n = ⊥
IsSysvarPlace (add_sender params) n = n ≡ 4
IsSysvarPlace (transfer params) n = n ≡ 7

-- All accounts, the first of which is at place `n`.
abbrev pub AllFrom : (ℕ → AccountInfo → Type 0) → ℕ → List AccountInfo → Type 0
AllFrom P n [] = Unit
AllFrom P n (account ∷ accounts) = P n account × AllFrom P (suc n) accounts

AllFrom-of :
    (P : ℕ → AccountInfo → Type 0)
    → ((n : ℕ) (i : AccountInfo) → P n i)
    → (n : ℕ) (accounts : List AccountInfo) → AllFrom P n accounts
AllFrom-of P h n [] = tt
AllFrom-of P h n (account ∷ accounts) = (h n account, AllFrom-of P h (suc n) accounts)

module _ (env : Env) (program_id : Pubkey) (w : Ledger) (Fits : AccountInfo → Type 0)
    (Q : Result ProgramError Ledger → Type 0) where
  -- Each handler has it, whatever its accounts and its data; the two that count votes may use that
  -- the account with the instructions fits.
  pub record Handlers : Type 0 where
    pub init :
        (i₁ i₂ i₃ i₄ i₅ i₆ i₇ : AccountInfo) (min_votes : ℕ)
        → Q (process_init_instruction env program_id i₁ i₂ i₃ i₄ i₅ i₆ i₇ min_votes w)
    pub create :
        (eth_address operator : EthereumAddress) (i₁ i₂ i₃ i₄ i₅ i₆ i₇ : AccountInfo)
        → Q (process_create_sender env program_id eth_address operator i₁ i₂ i₃ i₄ i₅ i₆ i₇ w)
    pub delete :
        (i₁ i₂ i₃ i₄ i₅ : AccountInfo) → Q (process_delete_sender env program_id i₁ i₂ i₃ i₄ i₅ w)
    pub add :
        (i₁ i₂ i₃ i₄ i₅ i₆ : AccountInfo) (signers : List AccountInfo)
        (eth_address operator : EthereumAddress)
        → Fits i₅
        → Q (process_add_sender env program_id i₁ i₂ i₃ i₄ i₅ i₆ signers eth_address operator w)
    pub pay :
        (i₁ i₂ i₃ i₄ i₅ i₆ i₇ i₈ : AccountInfo) (t : Transfer) (senders : List AccountInfo)
        → Fits i₈
        → Q (process_transfer env program_id i₁ i₂ i₃ i₄ i₅ i₆ i₇ i₈ t senders w)

  module _ (missing : Q (err not_enough_account_keys)) (handlers : Handlers) where
    taking :
        (P : ℕ → AccountInfo → Type 0) (n : ℕ) (accounts : List AccountInfo)
        (f : AccountInfo × List AccountInfo → Result ProgramError Ledger)
        → AllFrom P n accounts
        → ((account : AccountInfo) (rest : List AccountInfo)
            → P n account
            → AllFrom P (suc n) rest
            → Q (f (account, rest)))
        → Q (next_account_info accounts >>= f)
    unfolding ◌>>=◌
    taking P n [] f all h = missing
    taking P n (account ∷ accounts) f (fits, rest) h = h account accounts fits rest

    pub dispatch-Handlers :
        (instruction : Instructions) (accounts : List AccountInfo)
        → AllFrom (λ n i. IsSysvarPlace instruction n → Fits i) 0 accounts
        → Q (dispatch env program_id instruction accounts w)
    unfolding dispatch
    dispatch-Handlers (init_reward_manager params) accounts all = taking _ _ _ _ all λ _ _ _ r₁.
        taking _ _ _ _ r₁ λ _ _ _ r₂. taking _ _ _ _ r₂ λ _ _ _ r₃. taking _ _ _ _ r₃ λ _ _ _ r₄.
          taking _ _ _ _ r₄ λ _ _ _ r₅.
            taking _ _ _ _ r₅ λ _ _ _ r₆. taking _ _ _ _ r₆ λ _ _ _ _. handlers.init _ _ _ _ _ _ _ _
    dispatch-Handlers (create_sender params) accounts all = taking _ _ _ _ all λ _ _ _ r₁.
        taking _ _ _ _ r₁ λ _ _ _ r₂. taking _ _ _ _ r₂ λ _ _ _ r₃. taking _ _ _ _ r₃ λ _ _ _ r₄.
          taking _ _ _ _ r₄ λ _ _ _ r₅.
            taking _ _ _ _ r₅
              λ _ _ _ r₆. taking _ _ _ _ r₆ λ _ _ _ _. handlers.create _ _ _ _ _ _ _ _ _
    dispatch-Handlers delete_sender accounts all = taking _ _ _ _ all λ _ _ _ r₁.
        taking _ _ _ _ r₁ λ _ _ _ r₂. taking _ _ _ _ r₂ λ _ _ _ r₃.
          taking _ _ _ _ r₃ λ _ _ _ r₄. taking _ _ _ _ r₄ λ _ _ _ _. handlers.delete _ _ _ _ _
    dispatch-Handlers (add_sender params) accounts all = taking _ _ _ _ all λ _ _ _ r₁.
        taking _ _ _ _ r₁ λ _ _ _ r₂. taking _ _ _ _ r₂ λ _ _ _ r₃. taking _ _ _ _ r₃ λ _ _ _ r₄.
          taking _ _ _ _ r₄ λ _ _ f r₅.
            taking _ _ _ _ r₅
              λ _ _ _ r₆. taking _ _ _ _ r₆ λ _ _ _ _. handlers.add _ _ _ _ _ _ _ _ _ (f refl)
    dispatch-Handlers (transfer params) accounts all = taking _ _ _ _ all λ _ _ _ r₁.
        taking _ _ _ _ r₁ λ _ _ _ r₂. taking _ _ _ _ r₂ λ _ _ _ r₃. taking _ _ _ _ r₃ λ _ _ _ r₄.
          taking _ _ _ _ r₄ λ _ _ _ r₅. taking _ _ _ _ r₅ λ _ _ _ r₆. taking _ _ _ _ r₆ λ _ _ _ r₇.
            taking _ _ _ _ r₇ λ _ _ f r₈.
              taking _ _ _ _ r₈
                λ _ _ _ r₉. taking _ _ _ _ r₉ λ _ _ _ _. handlers.pay _ _ _ _ _ _ _ _ _ _ (f refl)

-- What the handlers ensure of a result.
module _ (env : Env) (program_id : Pubkey) (w : Ledger) (P : Ledger → Type 0) where
  pub process_instruction-Ensures :
      Handlers env program_id w (λ _. Unit) (Ensures P)
      → (accounts : List AccountInfo) (input : Bytes)
      → Ensures P (process_instruction env program_id accounts input w)
  unfolding process_instruction
  process_instruction-Ensures handlers accounts input =
      Ensures-bind_any (env.instructions_borsh.try_from_slice input) _ λ i.
        dispatch-Handlers env program_id w (λ _. Unit) (Ensures P) (record { at = λ b p. cc })
          handlers i accounts (AllFrom-of _ (λ _ _ _. tt) 0 accounts)
