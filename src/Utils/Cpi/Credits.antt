-- ===== src/Utils/Cpi/Credits.antt =====
-- The calls of other programs only credit the program's accounts.
use audius_reward_manager.Prelude.{ℕ, ◌≡◌, sym, ◌∙◌, List, [], ◌∷◌, Bytes}
use audius_reward_manager.Outcome.{ok, bind-eq_ok}
use audius_reward_manager.State.{Pubkey}
use audius_reward_manager.Runtime.{Instruction, AccountInfo, Ledger, Env}
use audius_reward_manager.Runtime.Laws.{KeepsOwned, IsRuntime}
use audius_reward_manager.Utils.Cpi.{token_transfer, create_account_with_seed}
use audius_reward_manager.Consts.{transfer_acc_balance, transfer_acc_space}

module _ (env : Env) (program_id : Pubkey) (laws : IsRuntime env program_id) where
  pub create_account-KeepsOwned :
      (from to base : Pubkey) (seed : Bytes) (lamports space : ℕ) (owner : Pubkey)
      (infos : List AccountInfo) (seeds : List (List Bytes)) (w w' : Ledger)
      → env.invoke_signed
          (env.create_account_with_seed_ix from to base seed lamports space owner)
          infos
          seeds
          w
        ≡ ok w'
      → KeepsOwned program_id w w'
  create_account-KeepsOwned from to base seed lamports space owner infos seeds w w' h =
      laws.invoke_signed_keeps _ infos seeds w w'
        (λ e.
          laws.system_program_foreign
            (sym (laws.create_account_program from to base seed lamports space owner) ∙ e))
        h

  pub token_transfer-KeepsOwned :
      (reward_manager : Pubkey) (source destination authority : AccountInfo) (amount : ℕ)
      (w w' : Ledger)
      → token_transfer env program_id reward_manager source destination authority amount w ≡ ok w'
      → KeepsOwned program_id w w'
  unfolding token_transfer
  token_transfer-KeepsOwned reward_manager source destination authority amount w w' h =
      let keys : List Pubkey = authority.key ∷ [] in
      let (ix, built, called) =
        bind-eq_ok
          (env.token_transfer_ix env.spl_token_id source.key destination.key authority.key keys
            amount)
          _ h in
      laws.invoke_signed_keeps ix _ _ w w'
        (λ e. laws.spl_token_foreign (
          sym (
            laws.token_transfer_program env.spl_token_id source.key destination.key authority.key
              keys amount ix built)
          ∙ e))
        called

  pub create_record-KeepsOwned :
      (reward_manager : Pubkey) (funder account_to_create base : AccountInfo) (seeds : Bytes)
      (w w' : Ledger)
      → create_account_with_seed env program_id funder account_to_create base reward_manager seeds
          transfer_acc_balance transfer_acc_space program_id w
        ≡ ok w'
      → KeepsOwned program_id w w'
  unfolding create_account_with_seed
  create_record-KeepsOwned reward_manager funder account_to_create base seeds w w' h =
      create_account-KeepsOwned _ _ _ _ _ _ _ _ _ w w' h

  pub initialize_account-KeepsOwned :
      (account mint owner : Pubkey) (infos : List AccountInfo) (w w' : Ledger) {ix : Instruction}
      → env.initialize_account env.spl_token_id account mint owner ≡ ok ix
      → env.invoke ix infos w ≡ ok w'
      → KeepsOwned program_id w w'
  initialize_account-KeepsOwned account mint owner infos w w' {ix} built called =
      laws.invoke_keeps ix infos w w'
        (λ e.
          laws.spl_token_foreign
            (sym (laws.initialize_account_program _ account mint owner ix built) ∙ e))
        called
