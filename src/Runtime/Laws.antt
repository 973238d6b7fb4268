-- ===== src/Runtime/Laws.antt =====
-- What the program relies on of the chain: documented behaviour of the runtime, the system program
-- and the serialiser, as hypotheses.
use audius_reward_manager.Prelude.{ℕ, ◌+◌, ◌≤◌, ◌<◌, ◌^◌, ◌≡◌, ◌≢◌, List, Bytes, length}
use audius_reward_manager.Outcome.{ok}
use audius_reward_manager.State.{
  Pubkey, RewardManager, SenderAccount, reward_manager_len, sender_account_len,
}
use audius_reward_manager.Runtime.{Account, AccountInfo, Instruction, Ledger, Env}

-- What another program may do to an account that it does not own: credit it.
pub record Keeps (a b : Account) : Type 0 where
  pub same_owner : b.owner ≡ a.owner
  pub same_bytes : b.bytes ≡ a.bytes
  pub not_debited : a.lamports ≤ b.lamports

-- Between two ledgers the accounts that `program_id` owns are only credited.
abbrev pub KeepsOwned : Pubkey → Ledger → Ledger → Type 0
KeepsOwned program_id w w' = (k : Pubkey) → (w k).owner ≡ program_id → Keeps (w k) (w' k)

-- All lamports together fit a `u64`, those of any two accounts in particular.
abbrev pub IsSolvent : Ledger → Type 0
IsSolvent w = (j k : Pubkey) → j ≢ k → (w j).lamports + (w k).lamports < 2 ^ 64

module _ (env : Env) (program_id : Pubkey) where
  pub record IsRuntime : Type 0 where
    -- A struct is read only from exactly the bytes that it takes.
    pub reward_manager_size :
        (d : Bytes) (m : RewardManager)
        → env.reward_manager_borsh.try_from_slice d ≡ ok m
        → length d ≡ reward_manager_len
    pub sender_size :
        (d : Bytes) (s : SenderAccount)
        → env.sender_borsh.try_from_slice d ≡ ok s
        → length d ≡ sender_account_len
    -- Its arrays have their sizes, so a sender is written to as many bytes.
    pub sender_written :
        (s : SenderAccount) → length (env.sender_borsh.serialize s) ≡ sender_account_len
    -- The builders of instructions address the program that they are given, or the system program.
    pub initialize_account_program :
        (p account mint owner : Pubkey) (ix : Instruction)
        → env.initialize_account p account mint owner ≡ ok ix
        → ix.program_id ≡ p
    pub token_transfer_program :
        (p source destination authority : Pubkey) (signers : List Pubkey) (amount : ℕ)
        (ix : Instruction)
        → env.token_transfer_ix p source destination authority signers amount ≡ ok ix
        → ix.program_id ≡ p
    pub create_account_program :
        (from to base : Pubkey) (seed : Bytes) (lamports space : ℕ) (owner : Pubkey)
        → (env.create_account_with_seed_ix from to base seed lamports space owner).program_id
          ≡ env.system_program_id
    pub spl_token_foreign : env.spl_token_id ≢ program_id
    pub system_program_foreign : env.system_program_id ≢ program_id
    -- Only its owner may debit an account or change its data or its owner.
    pub invoke_keeps :
        (ix : Instruction) (infos : List AccountInfo) (w w' : Ledger)
        → ix.program_id ≢ program_id
        → env.invoke ix infos w ≡ ok w'
        → KeepsOwned program_id w w'
    pub invoke_signed_keeps :
        (ix : Instruction) (infos : List AccountInfo) (seeds : List (List Bytes)) (w w' : Ledger)
        → ix.program_id ≢ program_id
        → env.invoke_signed ix infos seeds w ≡ ok w'
        → KeepsOwned program_id w w'
    -- The system program creates an account only where there are no lamports, with the lamports, the
    -- space and the owner that it is given.
    pub create_account_creates :
        (from to base : Pubkey) (seed : Bytes) (lamports space : ℕ) (owner : Pubkey)
        (infos : List AccountInfo) (seeds : List (List Bytes)) (w w' : Ledger)
        → env.invoke_signed
            (env.create_account_with_seed_ix from to base seed lamports space owner)
            infos
            seeds
            w
          ≡ ok w'
        → ((w to).lamports ≡ 0)
          × ((w' to).lamports ≡ lamports)
          × (length (w' to).bytes ≡ space)
          × ((w' to).owner ≡ owner)
