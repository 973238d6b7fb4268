-- ===== src/Utils/Secp.antt =====
-- program/src/utils.rs: the signature instructions that stand before the program's own in the
-- transaction, and what is read of one.
pub mod Reading
pub mod Layout
pub mod Collect
pub mod Complete
use audius_reward_manager.Prelude.{
  ℕ, zero, suc, ◌+◌, List, [], ◌∷◌, ◌++◌, Bytes, ◌==◌, length, take, drop, ltb, eqb, not,
  if◌then◌else◌,
}
use audius_reward_manager.Outcome.{Result, ok, panic, ⊤, ◌>>=◌, ◌>>◌, return_if, map_err}
use audius_reward_manager.Error.{
  AudiusProgramError, ProgramError, from, to_audius_program_error, secp256_instruction_missing,
  signature_verification_failed,
}
use audius_reward_manager.State.{EthereumAddress}
use audius_reward_manager.Runtime.{Instruction, Env}

-- `v[a..b]`, which panics where the slice does not lie within `v`
unfoldable pub slice : Bytes → ℕ → ℕ → Result ProgramError Bytes
slice v a n = if ltb (length v) (a + n) then panic else ok (take n (drop a v))

-- `v[a..]`
unfoldable pub slice_from : Bytes → ℕ → Result ProgramError Bytes
slice_from v a = if ltb (length v) a then panic else ok (drop a v)

-- The slice has 20 bytes, so that the conversion to an array does not fail.
unfoldable pub get_signer_from_secp_instruction : Bytes → Result ProgramError EthereumAddress
unfolding slice
get_signer_from_secp_instruction secp_instruction_data = slice secp_instruction_data 12 20

unfoldable pub validate_eth_signature : Bytes → Bytes → Result ProgramError ⊤
unfolding slice_from
validate_eth_signature expected_message secp_instruction_data = do
  instruction_message ← slice_from secp_instruction_data 97
  return_if (not (instruction_message == expected_message)) (from signature_verification_failed)
  ok tt

module _ (env : Env) (sysvar : Bytes) where
  -- The loop over the instructions from `ind` on, of which `rounds` are left.
  unfoldable pub collect_secp :
      (rounds ind : ℕ) → List Instruction → Result AudiusProgramError (List Instruction)
  collect_secp zero ind secp_instructions = ok secp_instructions
  collect_secp (suc rounds) ind secp_instructions = do
    instruction ← map_err to_audius_program_error (env.load_instruction_at ind sysvar)
    collect_secp rounds (ind + 1) (
        if instruction.program_id == env.secp256k1_program_id
        then secp_instructions ++ instruction ∷ []
        else secp_instructions)

  unfoldable pub get_secp_instructions : ℕ → ℕ → Result AudiusProgramError (List Instruction)
  unfolding collect_secp
  get_secp_instructions index_current_instruction necessary_instructions_count = do
    secp_instructions ← collect_secp index_current_instruction 0 []
    return_if (not (eqb (length secp_instructions) necessary_instructions_count))
        secp256_instruction_missing
    ok secp_instructions
