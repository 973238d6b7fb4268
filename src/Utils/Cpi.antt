-- ===== src/Utils/Cpi.antt =====
-- program/src/utils.rs: the calls of other programs that the program signs for its base address.
pub mod Credits
use audius_reward_manager.Prelude.{ℕ, [], ◌∷◌, Bytes}
use audius_reward_manager.Outcome.{Result, ◌>>=◌}
use audius_reward_manager.Error.{ProgramError}
use audius_reward_manager.State.{Pubkey}
use audius_reward_manager.Runtime.{AccountInfo, Ledger, Env}
use audius_reward_manager.Utils.Address.{get_base_address}

module _ (env : Env) where
  unfoldable pub token_transfer :
      Pubkey
      → Pubkey
      → AccountInfo
      → AccountInfo
      → AccountInfo
      → ℕ
      → Ledger
      → Result ProgramError Ledger
  unfolding get_base_address
  token_transfer program_id reward_manager source destination authority amount w = do
    let bump_seed = (get_base_address env program_id reward_manager).1
    tx ←
        env.token_transfer_ix env.spl_token_id source.key destination.key authority.key
          (authority.key ∷ []) amount
    env.invoke_signed tx (source ∷ destination ∷ authority ∷ [])
        ((reward_manager ∷ (bump_seed ∷ []) ∷ []) ∷ []) w

  unfoldable pub create_account_with_seed :
      Pubkey
      → AccountInfo
      → AccountInfo
      → AccountInfo
      → Pubkey
      → Bytes
      → ℕ
      → ℕ
      → Pubkey
      → Ledger
      → Result ProgramError Ledger
  unfolding get_base_address
  create_account_with_seed program_id funder account_to_create base reward_manager seeds
        required_lamports space owner w =
      let bump_seed = (get_base_address env program_id reward_manager).1 in
      env.invoke_signed
        (env.create_account_with_seed_ix funder.key account_to_create.key base.key
          (env.bs58_encode seeds) required_lamports space owner)
        (funder ∷ account_to_create ∷ base ∷ []) ((reward_manager ∷ (bump_seed ∷ []) ∷ []) ∷ []) w
