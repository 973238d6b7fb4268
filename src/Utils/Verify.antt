-- ===== src/Utils/Verify.antt =====
-- program/src/utils.rs: the messages that senders and the bot oracle sign, and the two verifiers.
pub mod Steps
pub mod Run
pub mod Sound
pub mod Votes
pub mod Messages
pub mod Separation
pub mod Ballots
pub mod Honest
pub mod Apart
pub mod Returns
pub mod Exact
use audius_reward_manager.Prelude.{
  ℕ, zero, suc, ◌+◌, ◌/◌, ◌%◌, List, [], ◌∷◌, ◌++◌, Bool, Bytes, ◌==◌, length, eqb, not, contains,
  set_insert, Map, if◌then◌else◌,
}
use audius_reward_manager.Outcome.{Result, ok, ⊤, ◌>>=◌, ◌>>◌, return_if}
use audius_reward_manager.Error.{
  ProgramError, from, operator_collision, signature_verification_failed,
}
use audius_reward_manager.State.{Pubkey, EthereumAddress, SenderAccount}
use audius_reward_manager.Instructions.{Transfer}
use audius_reward_manager.Runtime.{Instruction}
use audius_reward_manager.Utils.Secp.{get_signer_from_secp_instruction, validate_eth_signature}
use audius_reward_manager.Utils.Checkmap.{vec_into_checkmap, check_signer}

-- `to_le_bytes` of a number of `width` bytes
unfoldable pub to_le_bytes : ℕ → ℕ → Bytes
to_le_bytes zero n = []
to_le_bytes (suc width) n = (n % 256) ∷ to_le_bytes width (n / 256)

-- b"_"
abbrev pub separator : Bytes
separator = b'_' ∷ []

unfoldable pub bot_oracle_message : Transfer → Bytes
bot_oracle_message t =
    t.eth_recipient ++ (separator ++ (to_le_bytes 8 t.amount ++ (separator ++ t.id)))

unfoldable pub senders_message : Transfer → EthereumAddress → Bytes
senders_message t oracle =
    t.eth_recipient
    ++ (separator ++ (to_le_bytes 8 t.amount ++ (separator ++ (t.id ++ (separator ++ oracle)))))

unfoldable pub add_sender_message : Pubkey → EthereumAddress → Bytes
add_sender_message reward_manager_key new_sender = reward_manager_key ++ new_sender

abbrev pub VerifierFn : Type 0
VerifierFn = List Instruction → List EthereumAddress → List EthereumAddress → Result ProgramError ⊤

-- The variables of the loop in `build_verify_secp_transfer`.
pub record Progress : Type 0 where
  pub successful_verifications : ℕ
  pub checkmap : Map Bool
  pub operators : List EthereumAddress

module _ (bot_oracle : SenderAccount) (transfer_data : Transfer) where
  -- `if eth_signer == bot_oracle.eth_address { … }`
  unfoldable pub oracle_step :
      EthereumAddress → Instruction → Progress → Result ProgramError Progress
  oracle_step eth_signer instruction p =
      if eth_signer == bot_oracle.eth_address
      then (do
        validate_eth_signature (bot_oracle_message transfer_data) instruction.bytes
        let (is_new, operators') = set_insert p.operators bot_oracle.operator
        return_if (not is_new) (from operator_collision)
        ok (record p {
          successful_verifications = p.successful_verifications + 1;
          operators = operators';
        }))
      else ok p

  module _ (signers : List EthereumAddress) where
    -- `if signers.contains(&eth_signer) { … }`
    unfoldable pub sender_step :
        EthereumAddress → Instruction → Progress → Result ProgramError Progress
    sender_step eth_signer instruction p =
        if contains signers eth_signer
        then (do
          checkmap' ← check_signer p.checkmap eth_signer
          validate_eth_signature (senders_message transfer_data bot_oracle.eth_address)
              instruction.bytes
          ok (record p {
            successful_verifications = p.successful_verifications + 1;
            checkmap = checkmap';
          }))
        else ok p

    unfoldable pub verify_instructions : List Instruction → Progress → Result ProgramError Progress
    verify_instructions [] p = ok p
    verify_instructions (instruction ∷ instructions) p = do
      eth_signer ← get_signer_from_secp_instruction instruction.bytes
      p' ← oracle_step eth_signer instruction p
      p'' ← sender_step eth_signer instruction p'
      verify_instructions instructions p''

  unfoldable pub build_verify_secp_transfer : VerifierFn
  unfolding verify_instructions
  build_verify_secp_transfer instructions signers operators = do
    p ← verify_instructions signers instructions (record {
      successful_verifications = 0;
      checkmap = vec_into_checkmap signers;
      operators = operators;
    })
    return_if (not (eqb p.successful_verifications (length signers + 1)))
        (from signature_verification_failed)
    ok tt

module _ (reward_manager_key : Pubkey) (new_sender : EthereumAddress) where
  -- The loop of `build_verify_secp_add_sender`; it ends with the map that it has filled.
  unfoldable pub verify_votes : List Instruction → Map Bool → Result ProgramError (Map Bool)
  verify_votes [] checkmap = ok checkmap
  verify_votes (instruction ∷ instructions) checkmap = do
    eth_signer ← get_signer_from_secp_instruction instruction.bytes
    checkmap' ← check_signer checkmap eth_signer
    validate_eth_signature (add_sender_message reward_manager_key new_sender) instruction.bytes
    verify_votes instructions checkmap'

  unfoldable pub build_verify_secp_add_sender : VerifierFn
  unfolding verify_votes
  build_verify_secp_add_sender instructions signers _operators = do
    _ ← verify_votes instructions (vec_into_checkmap signers)
    ok tt
