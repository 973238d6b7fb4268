-- ===== src/Processor/Init/Once.antt =====
-- What `process_init_instruction` leaves: the new reward manager, which cannot be made again.
use audius_reward_manager.Prelude.{ℕ, ◌≡◌, ◌∙◌, sym, ap, refl, length, not, true, ◌==◌}
use audius_reward_manager.Outcome.{ok, err, ◌>>=◌, return_if, bind-eq_ok, return_if-eq_ok}
use audius_reward_manager.Error.{account_already_initialized, invalid_account_data}
use audius_reward_manager.State.{
  Pubkey, RewardManager, new_reward_manager, is_initialized_manager, reward_manager_len,
}
use audius_reward_manager.Runtime.{AccountInfo, Ledger, Env}
use audius_reward_manager.Runtime.Laws.{IsRuntime}
use audius_reward_manager.Utils.Address.{get_base_address}
use audius_reward_manager.Processor.Accounts.Writes.{write_data_whole}
use audius_reward_manager.Processor.Init.{process_init_instruction}

-- What `new` makes is initialised.
initialized_new :
    (token_account manager : Pubkey) (min_votes : ℕ)
    → is_initialized_manager (new_reward_manager token_account manager min_votes) ≡ true
unfolding is_initialized_manager new_reward_manager
initialized_new token_account manager min_votes = refl

-- An initialised reward manager is not initialised again.
initialized_refused :
    (env : Env) (program_id : Pubkey) (i₁ i₂ i₃ i₄ i₅ i₆ i₇ : AccountInfo) (votes : ℕ) (w : Ledger)
    (m : RewardManager)
    → env.reward_manager_borsh.try_from_slice (w i₁.key).bytes ≡ ok m
    → is_initialized_manager m ≡ true
    → process_init_instruction env program_id i₁ i₂ i₃ i₄ i₅ i₆ i₇ votes w
      ≡ err account_already_initialized
unfolding process_init_instruction ◌>>=◌ return_if
initialized_refused env program_id i₁ i₂ i₃ i₄ i₅ i₆ i₇ votes w m decoded initialized =
    rw decoded (rw initialized)

module _ (env : Env) (program_id : Pubkey)
    (reward_manager_info token_account_info mint_info manager_info authority_info : AccountInfo)
    (spl_token_info rent : AccountInfo) (min_votes : ℕ) (w : Ledger) where
  abbrev new_manager : RewardManager
  new_manager = new_reward_manager token_account_info.key manager_info.key min_votes

  -- Under the laws of the runtime, where the program owns the reward manager's account and the
  -- serialised new reward manager has the size of its account and is read back as it was written: a
  -- successful `InitRewardManager` leaves the new reward manager in the account, and every later one
  -- for this account in the new ledger fails as already initialised.
  pub process_init_once :
      {w' : Ledger}
      → IsRuntime env program_id
      → (w reward_manager_info.key).owner ≡ program_id
      → length (env.reward_manager_borsh.serialize new_manager) ≡ reward_manager_len
      → env.reward_manager_borsh.try_from_slice (env.reward_manager_borsh.serialize new_manager)
        ≡ ok new_manager
      → process_init_instruction env program_id reward_manager_info token_account_info mint_info
          manager_info authority_info spl_token_info rent min_votes w
        ≡ ok w'
      → (env.reward_manager_borsh.try_from_slice (w' reward_manager_info.key).bytes
          ≡ ok new_manager)
        × ((i₂ i₃ i₄ i₅ i₆ i₇ : AccountInfo) (votes : ℕ)
            → process_init_instruction env program_id reward_manager_info i₂ i₃ i₄ i₅ i₆ i₇ votes w'
              ≡ err account_already_initialized)
  unfolding process_init_instruction
  process_init_once {w'} laws owned size reads h =
      let (old, decoded, h₁) =
        bind-eq_ok (env.reward_manager_borsh.try_from_slice (w reward_manager_info.key).bytes) _
          h in
      let (_, h₂) = return_if-eq_ok (is_initialized_manager old) account_already_initialized _ h₁ in
      let (_, h₃) =
        return_if-eq_ok
          (not ((get_base_address env program_id reward_manager_info.key).0 == authority_info.key))
          invalid_account_data _ h₂ in
      let (ix, built, h₄) = bind-eq_ok _ _ h₃ in
      let (w₁, called, wrote) = bind-eq_ok (env.invoke ix _ w) _ h₄ in
      let kept =
        laws.invoke_keeps ix _ w w₁
          (λ e. laws.spl_token_foreign (sym (laws.initialize_account_program _ _ _ _ ix built) ∙ e))
          called reward_manager_info.key owned in
      let same_size =
        ap length kept.same_bytes ∙ laws.reward_manager_size _ old decoded ∙ sym size in
      let after = write_data_whole env reward_manager_info.key _ w₁ same_size wrote in
      let stored = ap env.reward_manager_borsh.try_from_slice after.1 ∙ reads in
      (
        stored,
        λ i₂ i₃ i₄ i₅ i₆ i₇ votes.
            initialized_refused env program_id reward_manager_info i₂ i₃ i₄ i₅ i₆ i₇ votes w'
              new_manager stored
              (initialized_new token_account_info.key manager_info.key min_votes),
      )
