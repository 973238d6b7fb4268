-- ===== src/Processor/Fate.antt =====
-- What an instruction can do to the account of a sender.
use audius_reward_manager.Prelude.{
  ℕ, ◌≤◌, ◌≡◌, ◌≢◌, sym, subst, ap, ◌∙◌, List, length, arith, ◌==◌, ==_iff, Bool-cases, inl, inr,
  Bytes,
}
use audius_reward_manager.Outcome.{ok}
use audius_reward_manager.Outcome.Ensures.{
  Ensures, Ensures-bind, Ensures-bind_any, Ensures-return_if,
}
use audius_reward_manager.State.{Pubkey, EthereumAddress, SenderAccount, new_sender_account}
use audius_reward_manager.Instructions.{Transfer}
use audius_reward_manager.Runtime.{Account, AccountInfo, Ledger, Env}
use audius_reward_manager.Runtime.Laws.{Keeps, KeepsOwned, IsSolvent, IsRuntime}
use audius_reward_manager.Utils.Cpi.Credits.{
  create_account-KeepsOwned, token_transfer-KeepsOwned, create_record-KeepsOwned,
  initialize_account-KeepsOwned,
}
use audius_reward_manager.Processor.Accounts.{write_data}
use audius_reward_manager.Processor.Accounts.Writes.{write_data_other, write_data_whole}
use audius_reward_manager.Processor.Accounts.Moved.{Moved-Keeps}
use audius_reward_manager.Processor.Init.{process_init_instruction}
use audius_reward_manager.Processor.Senders.{
  process_create_sender, process_delete_sender, process_add_sender,
}
use audius_reward_manager.Processor.Senders.Added.{add_sender-Added}
use audius_reward_manager.Processor.Senders.Addition.{Consent, process_add_sender_authorised}
use audius_reward_manager.Processor.Senders.Deletion.{Deletion, process_delete_sender-eq_ok}
use audius_reward_manager.Processor.Payout.{process_transfer}
use audius_reward_manager.Processor.Payout.Inversion.{process_transfer-eq_ok}
use audius_reward_manager.Processor.Dispatch.{process_instruction}
use audius_reward_manager.Processor.Dispatch.Handlers.{process_instruction-Ensures}

Keeps-trans : (a b c : Account) → Keeps a b → Keeps b c → Keeps a c
Keeps-trans a b c k l = ground arith

module _ (env : Env) (program_id : Pubkey) (j : Pubkey) where
  -- An account of the program with lamports that holds a sender.
  pub record HasSender (s : SenderAccount) (w : Ledger) : Type 0 where
    pub owned : (w j).owner ≡ program_id
    pub stored : env.sender_borsh.try_from_slice (w j).bytes ≡ ok s
    pub funded : 1 ≤ (w j).lamports

  -- The account stays, perhaps with more lamports; or the manager of its reward manager has signed
  -- and takes the lamports; or it is written over, with the consent to another sender that is listed,
  -- for the account that was passed as the reward manager, in the one passed as the instructions
  -- sysvar.
  pub data Fate (w w' : Ledger) : Type 0 where
    kept : Keeps (w j) (w' j) → Fate w w'
    deleted :
        (reward_manager manager sender refunder sys_prog : AccountInfo)
        → sender.key ≡ j
        → process_delete_sender env program_id reward_manager manager sender refunder sys_prog w
          ≡ ok w'
        → Deletion env program_id reward_manager manager sender refunder sys_prog w w'
        → Fate w w'
    overwritten :
        (reward_manager authority funder new_sender instructions rent : AccountInfo)
        (signers : List AccountInfo) (eth_address operator : EthereumAddress)
        → new_sender.key ≡ j
        → process_add_sender env program_id reward_manager authority funder new_sender instructions
            rent signers eth_address operator w
          ≡ ok w'
        → Consent env program_id reward_manager authority funder new_sender instructions rent
            signers eth_address operator w
        → (w' j).bytes
          ≡ env.sender_borsh.serialize (new_sender_account reward_manager.key eth_address operator)
        → Fate w w'

  module _ (laws : IsRuntime env program_id) (s : SenderAccount) (w : Ledger)
      (held : HasSender s w) where
    -- A call of another program, and then a write to another account.
    kept-write :
        (k : Pubkey) (v : Bytes) (w₁ : Ledger) {w' : Ledger}
        → k ≢ j
        → KeepsOwned program_id w w₁
        → write_data env k v w₁ ≡ ok w'
        → Fate w w'
    kept-write k v w₁ ne keeps wrote =
        kept
          (subst (Keeps (w j)) (sym (write_data_other env j k v w₁ ne wrote)) (keeps j held.owned))

    init-Fate :
        (i₁ i₂ i₃ i₄ i₅ i₆ i₇ : AccountInfo) (min_votes : ℕ)
        → Ensures
            (Fate w)
            (process_init_instruction env program_id i₁ i₂ i₃ i₄ i₅ i₆ i₇ min_votes w)
    unfolding process_init_instruction
    init-Fate i₁ i₂ i₃ i₄ i₅ i₆ i₇ min_votes = Ensures-bind _ _ λ m decoded.
        Ensures-return_if _ _ _ (
          Ensures-return_if _ _ _ (
            Ensures-bind _ _ λ ix built. Ensures-bind _ _ λ w₁ called. record {
              at = λ w₂ wrote.
                  let ne : i₁.key ≢ j = λ e. omega (
                    arith,
                    ap (λ x. length (w x).bytes) e,
                    laws.reward_manager_size _ m decoded,
                    laws.sender_size _ s held.stored,
                  ) in
                  kept-write i₁.key _ w₁ ne
                    (initialize_account-KeepsOwned env program_id laws _ _ _ _ w w₁ built called)
                    wrote;
            }))

    create_sender-Fate :
        (eth_address operator : EthereumAddress) (i₁ i₂ i₃ i₄ i₅ i₆ i₇ : AccountInfo)
        → Ensures
            (Fate w)
            (process_create_sender env program_id eth_address operator i₁ i₂ i₃ i₄ i₅ i₆ i₇ w)
    unfolding process_create_sender
    create_sender-Fate eth_address operator i₁ i₂ i₃ i₄ i₅ i₆ i₇ = Ensures-return_if _ _ _ (
        Ensures-bind_any _ _ λ _. Ensures-return_if _ _ _ (
          Ensures-return_if _ _ _ (
            Ensures-bind_any _ _ λ _. Ensures-return_if _ _ _ (
              Ensures-bind_any _ _ λ _. Ensures-bind _ _ λ w₁ created. record {
                at = λ w₂ wrote.
                    let unused =
                      (laws.create_account_creates _ i₅.key _ _ _ _ _ _ _ w w₁ created).0 in
                    let ne : i₅.key ≢ j =
                      λ e. omega (arith, ap (λ x. (w x).lamports) e, unused, held.funded) in
                    kept-write i₅.key _ w₁ ne
                      (create_account-KeepsOwned env program_id laws _ _ _ _ _ _ _ _ _ w w₁ created)
                      wrote;
              }))))

    add_sender-Fate :
        (i₁ i₂ i₃ i₄ i₅ i₆ : AccountInfo) (signers : List AccountInfo)
        (eth_address operator : EthereumAddress)
        → Ensures
            (Fate w)
            (process_add_sender env program_id i₁ i₂ i₃ i₄ i₅ i₆ signers eth_address operator w)
    add_sender-Fate i₁ i₂ i₃ i₄ i₅ i₆ signers eth_address operator = record {
      at = λ w₂ h.
          let sender = new_sender_account i₁.key eth_address operator in
          let added =
            (add_sender-Added env program_id laws w i₁ i₂ i₃ i₄ i₅ i₆ signers eth_address
                operator).at
              w₂ h in
          elim (Bool-cases (i₄.key == j)) [
            | inl same ↦
                let at_j : i₄.key ≡ j = (==_iff i₄.key j).0 same in
                let sized : length (added.created i₄.key).bytes
                    ≡ length (env.sender_borsh.serialize sender) =
                  ap (λ x. length (added.created x).bytes) at_j
                  ∙ ap length (added.credits j held.owned).same_bytes
                  ∙ laws.sender_size _ s held.stored
                  ∙ sym (laws.sender_written sender) in
                overwritten i₁ i₂ i₃ i₄ i₅ i₆ signers eth_address operator at_j h
                  (process_add_sender_authorised env program_id i₁ i₂ i₃ i₄ i₅ i₆ signers
                    eth_address operator w h)
                  (subst (λ x. (w₂ x).bytes ≡ env.sender_borsh.serialize sender) at_j
                    (write_data_whole env i₄.key _ added.created sized added.wrote).1)
            | inr differs ↦
                kept-write i₄.key _ added.created (λ e. cc (differs, (==_iff i₄.key j).1 e))
                  added.credits added.wrote
          ];
    }

    delete_sender-Fate :
        (i₁ i₂ i₃ i₄ i₅ : AccountInfo)
        → IsSolvent w
        → Ensures (Fate w) (process_delete_sender env program_id i₁ i₂ i₃ i₄ i₅ w)
    delete_sender-Fate i₁ i₂ i₃ i₄ i₅ solvent = record {
      at = λ w₂ h.
          let d = process_delete_sender-eq_ok env program_id i₁ i₂ i₃ i₄ i₅ w solvent h in
          elim (Bool-cases (i₃.key == j)) [
            | inl same ↦ deleted i₁ i₂ i₃ i₄ i₅ ((==_iff i₃.key j).0 same) h d
            | inr differs ↦ kept (
                Moved-Keeps i₃.key i₄.key j w w₂ d.moved
                  (λ e. cc (differs, (==_iff i₃.key j).1 (sym e))))
          ];
    }

    transfer-Fate :
        (i₁ i₂ i₃ i₄ i₅ i₆ i₇ i₈ : AccountInfo) (t : Transfer) (senders : List AccountInfo)
        → Ensures (Fate w) (process_transfer env program_id i₁ i₂ i₃ i₄ i₅ i₆ i₇ i₈ t senders w)
    transfer-Fate i₁ i₂ i₃ i₄ i₅ i₆ i₇ i₈ t senders = record {
      at = λ w₂ h.
          let q = process_transfer-eq_ok env program_id i₁ i₂ i₃ i₄ i₅ i₆ i₇ i₈ t senders w h in
          let paid =
            token_transfer-KeepsOwned env program_id laws i₁.key i₄ i₃ i₂ t.amount w q.paid q.pays j
              held.owned in
          let recorded =
            create_record-KeepsOwned env program_id laws i₁.key i₆ i₇ i₂ _ q.paid w₂ q.records j
              (paid.same_owner ∙ held.owned) in
          kept (Keeps-trans (w j) (q.paid j) (w₂ j) paid recorded);
    }

    -- What becomes of a sender. Under the laws of the runtime, for an account of the program with
    -- lamports that holds a sender, in a ledger whose lamports fit a `u64`: a successful instruction,
    -- whatever its accounts and its bytes, leaves its data and its owner and takes no lamports; or
    -- it is `DeleteSender` for this account, signed by the manager of the sender's reward manager;
    -- or it is `AddSender` with this account passed for the new sender, which it now holds, and the
    -- vote for it is what the code reads, and no more: the account that was passed as the reward
    -- manager, of any owner, is read as an initialised one, and the account that was passed as the
    -- instructions sysvar, at any key, names at least its `min_votes`, which may be none, of its
    -- senders as signers of the message for the new sender.
    pub process_instruction-Fate :
        (accounts : List AccountInfo) (input : Bytes) {w' : Ledger}
        → IsSolvent w
        → process_instruction env program_id accounts input w ≡ ok w'
        → Fate w w'
    process_instruction-Fate accounts input {w'} solvent h =
        (process_instruction-Ensures env program_id w (Fate w)
            (record {
              init = init-Fate;
              create = create_sender-Fate;
              delete = λ i₁ i₂ i₃ i₄ i₅. delete_sender-Fate i₁ i₂ i₃ i₄ i₅ solvent;
              add = λ i₁ i₂ i₃ i₄ i₅ i₆ s e o _. add_sender-Fate i₁ i₂ i₃ i₄ i₅ i₆ s e o;
              pay = λ i₁ i₂ i₃ i₄ i₅ i₆ i₇ i₈ t s _. transfer-Fate i₁ i₂ i₃ i₄ i₅ i₆ i₇ i₈ t s;
            })
            accounts input).at
          w' h
