-- ===== src/Processor/Stable.antt =====
-- Kinds of accounts of the program that no handler changes, but for a credit.
use audius_reward_manager.Processor.Accounts.{write_data}
use audius_reward_manager.Prelude.{
  Bytes, ◌≤◌, ℕ, ◌<◌, ◌≡◌, ◌≢◌, sym, subst, List, true, length, arith,
}
use audius_reward_manager.Outcome.{ok}
use audius_reward_manager.Outcome.Ensures.{
  Ensures-return_if-false, Ensures, Ensures-bind, Ensures-bind_any, Ensures-return_if,
}
use audius_reward_manager.State.{
  Pubkey, EthereumAddress, RewardManager, SenderAccount, is_initialized_manager,
}
use audius_reward_manager.Instructions.{Transfer}
use audius_reward_manager.Runtime.{Account, AccountInfo, Ledger, Env}
use audius_reward_manager.Runtime.Laws.{Keeps, KeepsOwned, IsSolvent, IsRuntime}
use audius_reward_manager.Utils.Cpi.Credits.{
  create_account-KeepsOwned, token_transfer-KeepsOwned, create_record-KeepsOwned,
  initialize_account-KeepsOwned,
}
use audius_reward_manager.Processor.Accounts.Writes.{write_data-eq_ok, write_data_other}
use audius_reward_manager.Processor.Accounts.Moved.{transfer_all-Moved, Moved-Keeps}
use audius_reward_manager.Processor.Init.{process_init_instruction}
use audius_reward_manager.Processor.Senders.{
  process_create_sender, process_delete_sender, process_add_sender,
}
use audius_reward_manager.Processor.Payout.{process_transfer}
use audius_reward_manager.Processor.Payout.Inversion.{process_transfer-eq_ok}
use audius_reward_manager.Processor.Dispatch.{process_instruction}
use audius_reward_manager.Processor.Dispatch.Handlers.{process_instruction-Ensures}

-- A kind of accounts of the program that stays when it is credited; that is no reward manager still
-- to be initialised and no sender; and that a sender does not fit into.
pub record IsStable (env : Env) (program_id : Pubkey) (P : Account → Type 0) : Type 0 where
  pub owned : (a : Account) → P a → a.owner ≡ program_id
  pub credited : (a b : Account) → Keeps a b → P a → P b
  pub initialized :
      (a : Account) (m : RewardManager)
      → P a
      → env.reward_manager_borsh.try_from_slice a.bytes ≡ ok m
      → is_initialized_manager m ≡ true
  pub no_sender :
      (a : Account) (s : SenderAccount) → P a → env.sender_borsh.try_from_slice a.bytes ≢ ok s
  pub no_room :
      (a : Account) (s : SenderAccount)
      → P a
      → length a.bytes < length (env.sender_borsh.serialize s)

module _ (env : Env) (program_id : Pubkey) (laws : IsRuntime env program_id) (P : Account → Type 0)
    (stable : IsStable env program_id P) (j : Pubkey) where
  -- The account at `j` is of the kind.
  abbrev pub At : Ledger → Type 0
  At w = P (w j)

  pub KeepsOwned-At : (w w' : Ledger) → KeepsOwned program_id w w' → At w → At w'
  KeepsOwned-At w w' k p = stable.credited (w j) (w' j) (k j (stable.owned (w j) p)) p

  -- A sender is written elsewhere.
  write_sender-At :
      (k : Pubkey) (s : SenderAccount) (w : Ledger) {w' : Ledger}
      → write_data env k (env.sender_borsh.serialize s) w ≡ ok w'
      → At w
      → At w'
  write_sender-At k s w {w'} h p =
      let ne : k ≢ j = λ e.
        let room =
          subst (λ x. length (env.sender_borsh.serialize s) ≤ length (w x).bytes) e
            (write_data-eq_ok env k (env.sender_borsh.serialize s) w h).0 in
        omega (arith, stable.no_room (w j) s p) in
      subst P (sym (write_data_other env j k (env.sender_borsh.serialize s) w ne h)) p

  init-At :
      (i₁ i₂ i₃ i₄ i₅ i₆ i₇ : AccountInfo) (min_votes : ℕ) (w : Ledger)
      → At w
      → Ensures At (process_init_instruction env program_id i₁ i₂ i₃ i₄ i₅ i₆ i₇ min_votes w)
  unfolding process_init_instruction
  init-At i₁ i₂ i₃ i₄ i₅ i₆ i₇ min_votes w p = Ensures-bind _ _ λ m decoded.
      Ensures-return_if-false _ _ _ λ new. Ensures-return_if _ _ _ (
        Ensures-bind _ _ λ ix built. Ensures-bind _ _ λ w₁ called. record {
          at = λ w₂ wrote.
              let ne : i₁.key ≢ j = λ e. cc (
                new,
                stable.initialized (w j) m p (
                    subst (λ x. env.reward_manager_borsh.try_from_slice (w x).bytes ≡ ok m) e
                      decoded),
              ) in
              subst P (sym (write_data_other env j i₁.key _ w₁ ne wrote)) (
                KeepsOwned-At w w₁
                  (initialize_account-KeepsOwned env program_id laws _ _ _ _ w w₁ built called) p);
        })

  create_sender-At :
      (eth_address operator : EthereumAddress) (i₁ i₂ i₃ i₄ i₅ i₆ i₇ : AccountInfo) (w : Ledger)
      → At w
      → Ensures At
          (process_create_sender env program_id eth_address operator i₁ i₂ i₃ i₄ i₅ i₆ i₇ w)
  unfolding process_create_sender
  create_sender-At eth_address operator i₁ i₂ i₃ i₄ i₅ i₆ i₇ w p = Ensures-return_if _ _ _ (
      Ensures-bind_any _ _ λ _. Ensures-return_if _ _ _ (
        Ensures-return_if _ _ _ (
          Ensures-bind_any _ _ λ _. Ensures-return_if _ _ _ (
            Ensures-bind_any _ _ λ _. Ensures-bind _ _ λ w₁ created. record {
              at = λ w₂ wrote. write_sender-At i₅.key _ w₁ wrote (
                  KeepsOwned-At w w₁
                    (create_account-KeepsOwned env program_id laws _ _ _ _ _ _ _ _ _ w w₁ created)
                    p);
            }))))

  add_sender-At :
      (i₁ i₂ i₃ i₄ i₅ i₆ : AccountInfo) (signers : List AccountInfo)
      (eth_address operator : EthereumAddress) (w : Ledger)
      → At w
      → Ensures At
          (process_add_sender env program_id i₁ i₂ i₃ i₄ i₅ i₆ signers eth_address operator w)
  unfolding process_add_sender
  add_sender-At i₁ i₂ i₃ i₄ i₅ i₆ signers eth_address operator w p = Ensures-bind_any _ _ λ _.
      Ensures-return_if _ _ _ (
        Ensures-bind_any _ _ λ _. Ensures-bind_any _ _ λ _. Ensures-bind_any _ _ λ _.
          Ensures-bind _ _ λ w₁ created. record {
            at = λ w₂ wrote. write_sender-At i₄.key _ w₁ wrote (
                KeepsOwned-At w w₁
                  (create_account-KeepsOwned env program_id laws _ _ _ _ _ _ _ _ _ w w₁ created) p);
          })

  delete_sender-At :
      (i₁ i₂ i₃ i₄ i₅ : AccountInfo) (w : Ledger)
      → IsSolvent w
      → At w
      → Ensures At (process_delete_sender env program_id i₁ i₂ i₃ i₄ i₅ w)
  unfolding process_delete_sender
  delete_sender-At i₁ i₂ i₃ i₄ i₅ w solvent p = Ensures-return_if _ _ _ (
      Ensures-bind _ _ λ sender decoded. Ensures-return_if _ _ _ (
        Ensures-bind_any _ _ λ _. Ensures-return_if _ _ _ (record {
          at = λ w₁ moved.
              let ne : j ≢ i₃.key = λ e. stable.no_sender (w j) sender p (
                subst (λ x. env.sender_borsh.try_from_slice (w x).bytes ≡ ok sender) (sym e)
                  decoded) in
              stable.credited (w j) (w₁ j)
                (Moved-Keeps i₃.key i₄.key j w w₁ (transfer_all-Moved i₃ i₄ w solvent moved) ne) p;
        })))

  transfer-At :
      (i₁ i₂ i₃ i₄ i₅ i₆ i₇ i₈ : AccountInfo) (t : Transfer) (senders : List AccountInfo)
      (w : Ledger)
      → At w
      → Ensures At (process_transfer env program_id i₁ i₂ i₃ i₄ i₅ i₆ i₇ i₈ t senders w)
  transfer-At i₁ i₂ i₃ i₄ i₅ i₆ i₇ i₈ t senders w p = record {
    at = λ w₂ h.
        let q = process_transfer-eq_ok env program_id i₁ i₂ i₃ i₄ i₅ i₆ i₇ i₈ t senders w h in
        KeepsOwned-At q.paid w₂
          (create_record-KeepsOwned env program_id laws i₁.key i₆ i₇ i₂ _ q.paid w₂ q.records)
          (KeepsOwned-At w q.paid
            (token_transfer-KeepsOwned env program_id laws i₁.key i₄ i₃ i₂ t.amount w q.paid q.pays)
            p);
  }

  pub process_instruction-At :
      (accounts : List AccountInfo) (input : Bytes) (w : Ledger)
      → IsSolvent w
      → At w
      → Ensures At (process_instruction env program_id accounts input w)
  process_instruction-At accounts input w solvent p =
      process_instruction-Ensures env program_id w At
        (record {
          init = λ i₁ i₂ i₃ i₄ i₅ i₆ i₇ votes. init-At i₁ i₂ i₃ i₄ i₅ i₆ i₇ votes w p;
          create = λ e o i₁ i₂ i₃ i₄ i₅ i₆ i₇. create_sender-At e o i₁ i₂ i₃ i₄ i₅ i₆ i₇ w p;
          delete = λ i₁ i₂ i₃ i₄ i₅. delete_sender-At i₁ i₂ i₃ i₄ i₅ w solvent p;
          add = λ i₁ i₂ i₃ i₄ i₅ i₆ l e o _. add_sender-At i₁ i₂ i₃ i₄ i₅ i₆ l e o w p;
          pay = λ i₁ i₂ i₃ i₄ i₅ i₆ i₇ i₈ t l _. transfer-At i₁ i₂ i₃ i₄ i₅ i₆ i₇ i₈ t l w p;
        })
        accounts input
