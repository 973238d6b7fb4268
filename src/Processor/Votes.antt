-- ===== src/Processor/Votes.antt =====
-- program/src/processor.rs: `check_secp_signs`, the vote of the senders.
pub mod Quorum
pub mod Accepts
pub mod Returns
use audius_reward_manager.Prelude.{ℕ, List, length, ltb, eqb}
use audius_reward_manager.Outcome.{Result, ⊤, ◌>>=◌, ◌>>◌, return_if, map_err}
use audius_reward_manager.Error.{
  ProgramError, from, not_enough_signers, secp256_instruction_missing,
}
use audius_reward_manager.State.{Pubkey}
use audius_reward_manager.Runtime.{AccountInfo, Ledger, Env}
use audius_reward_manager.Utils.Secp.{get_secp_instructions}
use audius_reward_manager.Utils.Senders.{get_eth_addresses}
use audius_reward_manager.Utils.Verify.{VerifierFn}

module _ (env : Env) where
  unfoldable pub check_secp_signs :
      Pubkey
      → AccountInfo
      → AccountInfo
      → List AccountInfo
      → ℕ
      → VerifierFn
      → Ledger
      → Result ProgramError ⊤
  check_secp_signs program_id reward_manager_info instruction_info expected_signers extraction_depth
        verifier w =
      do
        reward_manager ← env.reward_manager_borsh.try_from_slice (w reward_manager_info.key).bytes
        return_if (ltb (length expected_signers) reward_manager.min_votes) (from not_enough_signers)
        index ← env.load_current_index (w instruction_info.key).bytes
        return_if (eqb index 0) (from secp256_instruction_missing)
        secp_instructions ←
            map_err from
              (get_secp_instructions env (w instruction_info.key).bytes index extraction_depth)
        (senders_eth_addresses, operators_set) ←
            get_eth_addresses env program_id reward_manager_info.key w expected_signers
        verifier secp_instructions senders_eth_addresses operators_set
