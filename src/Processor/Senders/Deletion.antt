-- ===== src/Processor/Senders/Deletion.antt =====
-- What a successful `process_delete_sender` has checked, and where the lamports go.
use audius_reward_manager.Prelude.{◌≡◌, true, not, ◌==◌, ==_iff, not-eq_false}
use audius_reward_manager.Outcome.{ok, bind-eq_ok, return_if-eq_ok}
use audius_reward_manager.Error.{
  from, missing_required_signature, wrong_reward_manager_key, incorect_manager_account,
}
use audius_reward_manager.State.{Pubkey, RewardManager, SenderAccount}
use audius_reward_manager.Runtime.{AccountInfo, Ledger, Env}
use audius_reward_manager.Runtime.Laws.{IsSolvent}
use audius_reward_manager.Processor.Accounts.Moved.{Moved, transfer_all-Moved}
use audius_reward_manager.Processor.Senders.{process_delete_sender}

module _ (env : Env) (program_id : Pubkey)
    (reward_manager_info manager_account_info sender_info refunder_account_info : AccountInfo)
    (sys_prog : AccountInfo) (w : Ledger) where
  pub record Deletion (w' : Ledger) : Type 0 where
    pub signed : manager_account_info.is_signer ≡ true
    pub sender : SenderAccount
    pub sender_decoded : env.sender_borsh.try_from_slice (w sender_info.key).bytes ≡ ok sender
    pub belongs : sender.reward_manager ≡ reward_manager_info.key
    pub manager : RewardManager
    pub manager_decoded :
        env.reward_manager_borsh.try_from_slice (w reward_manager_info.key).bytes ≡ ok manager
    pub manager_signed : manager.manager ≡ manager_account_info.key
    pub moved : Moved sender_info.key refunder_account_info.key w w'

  -- Where the lamports of any two accounts fit a `u64`: a sender is deleted only with the signature of
  -- the manager of its reward manager; all its lamports go to the refunder, another account, and
  -- nothing else changes: the sender's data and owner stay as they were.
  pub process_delete_sender-eq_ok :
      {w' : Ledger}
      → IsSolvent w
      → process_delete_sender env program_id reward_manager_info manager_account_info sender_info
          refunder_account_info sys_prog w
        ≡ ok w'
      → Deletion w'
  unfolding process_delete_sender
  process_delete_sender-eq_ok solvent h =
      let (signed, h₁) =
        return_if-eq_ok (not manager_account_info.is_signer) missing_required_signature _ h in
      let (sender, sender_decoded, h₂) =
        bind-eq_ok (env.sender_borsh.try_from_slice (w sender_info.key).bytes) _ h₁ in
      let (belongs, h₃) =
        return_if-eq_ok (not (sender.reward_manager == reward_manager_info.key))
          (from wrong_reward_manager_key) _ h₂ in
      let (manager, manager_decoded, h₄) =
        bind-eq_ok (env.reward_manager_borsh.try_from_slice (w reward_manager_info.key).bytes) _
          h₃ in
      let (manager_signed, moved) =
        return_if-eq_ok (not (manager.manager == manager_account_info.key))
          (from incorect_manager_account) _ h₄ in
      record {
        signed = not-eq_false _ signed;
        sender = sender;
        sender_decoded = sender_decoded;
        belongs = (==_iff _ _).0 (not-eq_false _ belongs);
        manager = manager;
        manager_decoded = manager_decoded;
        manager_signed = (==_iff _ _).0 (not-eq_false _ manager_signed);
        moved = transfer_all-Moved sender_info refunder_account_info w solvent moved;
      }
