-- ===== src/Utils/Address.antt =====
-- program/src/utils.rs: the addresses that the program derives, and the test of an account's owner.
pub mod Owner
use audius_reward_manager.Prelude.{ℕ, List, [], ◌∷◌, Bytes, ◌==◌, not}
use audius_reward_manager.Outcome.{Result, ok, ⊤, ◌>>=◌, ◌>>◌, return_if}
use audius_reward_manager.Error.{ProgramError, incorrect_program_id}
use audius_reward_manager.State.{Pubkey}
use audius_reward_manager.Runtime.{AccountInfo, Ledger, PubkeyError, Env}

pub record Base : Type 0 where
  pub address : Pubkey
  pub seed : ℕ

-- The seed is a `String`, by its bytes.
pub record Derived : Type 0 where
  pub address : Pubkey
  pub seed : Bytes

pub record AddressPair : Type 0 where
  pub base : Base
  pub derive : Derived

-- The macro `is_owner!`: the first account that `program_id` does not own ends the caller.
unfoldable pub is_owner : Pubkey → List AccountInfo → Ledger → Result ProgramError ⊤
is_owner program_id [] w = ok tt
is_owner program_id (account ∷ accounts) w = do
  return_if (not ((w account.key).owner == program_id)) incorrect_program_id
  is_owner program_id accounts w

module _ (env : Env) where
  unfoldable pub get_base_address : Pubkey → Pubkey → Pubkey × ℕ
  get_base_address program_id reward_manager =
      env.find_program_address (reward_manager ∷ []) program_id

  unfoldable pub get_derived_address : Pubkey → Pubkey → Bytes → Result PubkeyError (Pubkey × Bytes)
  get_derived_address program_id base seeds = do
    let eseed = env.bs58_encode seeds
    i ← env.create_with_seed base eseed program_id
    ok (i, eseed)

  unfoldable pub get_address_pair : Pubkey → Pubkey → Bytes → Result PubkeyError AddressPair
  unfolding get_base_address get_derived_address
  get_address_pair program_id reward_manager seed =
      let (base_pk, base_seed) = get_base_address program_id reward_manager in
      get_derived_address program_id base_pk seed >>= λ (derived_pk, derive_seed). ok (record {
        base = record { address = base_pk; seed = base_seed };
        derive = record { address = derived_pk; seed = derive_seed };
      })
