-- ===== src/Processor/Senders/Added.antt =====
-- What a successful `process_add_sender` has done.
use audius_reward_manager.Prelude.{◌≡◌, List, Bytes}
use audius_reward_manager.Outcome.{ok}
use audius_reward_manager.Outcome.Ensures.{
  Ensures, Ensures-bind, Ensures-bind_any, Ensures-return_if,
}
use audius_reward_manager.State.{Pubkey, EthereumAddress, new_sender_account}
use audius_reward_manager.Runtime.{AccountInfo, Ledger, Env}
use audius_reward_manager.Runtime.Laws.{KeepsOwned, IsRuntime}
use audius_reward_manager.Utils.Cpi.Credits.{create_account-KeepsOwned}
use audius_reward_manager.Processor.Accounts.{write_data}
use audius_reward_manager.Processor.Senders.{process_add_sender}

module _ (env : Env) (program_id : Pubkey) (laws : IsRuntime env program_id) (w : Ledger) where
  -- `AddSender` ends with a write, after a call that credits the program's accounts.
  pub record Added (k : Pubkey) (v : Bytes) (w' : Ledger) : Type 0 where
    pub created : Ledger
    pub credits : KeepsOwned program_id w created
    pub wrote : write_data env k v created ≡ ok w'

  pub add_sender-Added :
      (i₁ i₂ i₃ i₄ i₅ i₆ : AccountInfo) (signers : List AccountInfo)
      (eth_address operator : EthereumAddress)
      → Ensures
          (Added i₄.key
            (env.sender_borsh.serialize (new_sender_account i₁.key eth_address operator)))
          (process_add_sender env program_id i₁ i₂ i₃ i₄ i₅ i₆ signers eth_address operator w)
  unfolding process_add_sender
  add_sender-Added i₁ i₂ i₃ i₄ i₅ i₆ signers eth_address operator = Ensures-bind_any _ _ λ _.
      Ensures-return_if _ _ _ (
        Ensures-bind_any _ _ λ _. Ensures-bind_any _ _ λ _. Ensures-bind_any _ _ λ _.
          Ensures-bind _ _ λ w₁ called. record {
            at = λ w₂ wrote. record {
              created = w₁;
              credits = create_account-KeepsOwned env program_id laws _ _ _ _ _ _ _ _ _ w w₁ called;
              wrote = wrote;
            };
          })
