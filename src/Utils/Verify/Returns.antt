-- ===== src/Utils/Verify/Returns.antt =====
-- The verifiers end without a panic on signature instructions that are long enough.
use audius_reward_manager.Prelude.{
  ◌≤◌, List, [], ◌∷◌, Bytes, length, arith, Map, Bool, lookup, Option, none, some, true, false,
}
use audius_reward_manager.Prelude.Predicates.{All}
use audius_reward_manager.Outcome.{◌>>=◌, return_if}
use audius_reward_manager.Outcome.Returns.{
  Returns, Returns-ok, Returns-err, Returns-bind_any, Returns-return_if, returns_rules,
}
use audius_reward_manager.State.{Pubkey, EthereumAddress, SenderAccount}
use audius_reward_manager.Instructions.{Transfer}
use audius_reward_manager.Runtime.{Instruction}
use audius_reward_manager.Utils.Secp.{get_signer_from_secp_instruction, validate_eth_signature}
use audius_reward_manager.Utils.Checkmap.{mark, check_signer}
use audius_reward_manager.Utils.Verify.{
  Progress, oracle_step, sender_step, verify_instructions, build_verify_secp_transfer, verify_votes,
  build_verify_secp_add_sender,
}

-- As many bytes as the program looks past.
abbrev pub IsLong : Instruction → Type 0
IsLong ix = 97 ≤ length ix.bytes

get_signer-Returns : (d : Bytes) → 97 ≤ length d → Returns (get_signer_from_secp_instruction d)
unfolding get_signer_from_secp_instruction
get_signer-Returns d long = record { at = λ p. ground arith }

validate-Returns : (m d : Bytes) → 97 ≤ length d → Returns (validate_eth_signature m d)
unfolding validate_eth_signature ◌>>=◌ return_if
validate-Returns m d long = record { at = λ p. ground arith }

mark-Returns :
    (checkmap : Map Bool) (signer : EthereumAddress) (o : Option Bool)
    → Returns (mark checkmap signer o)
mark-Returns checkmap signer none = Returns-err _
mark-Returns checkmap signer (some true) = Returns-err _
mark-Returns checkmap signer (some false) = Returns-ok _

check_signer-Returns :
    (checkmap : Map Bool) (signer : EthereumAddress) → Returns (check_signer checkmap signer)
unfolding check_signer
check_signer-Returns checkmap signer = mark-Returns checkmap signer (lookup signer checkmap)

module _ (bot_oracle : SenderAccount) (t : Transfer) (signers : List EthereumAddress) where
  oracle_step-Returns :
      (signer : EthereumAddress) (ix : Instruction) (p : Progress)
      → IsLong ix
      → Returns (oracle_step bot_oracle t signer ix p)
  unfolding oracle_step
  oracle_step-Returns signer ix p long = search (returns_rules, validate-Returns)

  sender_step-Returns :
      (signer : EthereumAddress) (ix : Instruction) (p : Progress)
      → IsLong ix
      → Returns (sender_step bot_oracle t signers signer ix p)
  unfolding sender_step
  sender_step-Returns signer ix p long =
      search (returns_rules, validate-Returns, check_signer-Returns)

  verify_instructions-Returns :
      (ixs : List Instruction) (p : Progress)
      → All IsLong ixs
      → Returns (verify_instructions bot_oracle t signers ixs p)
  unfolding verify_instructions
  verify_instructions-Returns [] p all = Returns-ok p
  verify_instructions-Returns (ix ∷ ixs) p (long, all) =
      Returns-bind_any _ _ (get_signer-Returns ix.bytes long) λ signer.
        Returns-bind_any _ _ (oracle_step-Returns signer ix p long) λ p'.
          Returns-bind_any _ _ (sender_step-Returns signer ix p' long)
            λ p''. verify_instructions-Returns ixs p'' all

  pub build_verify_secp_transfer-Returns :
      (ixs : List Instruction) (operators : List EthereumAddress)
      → All IsLong ixs
      → Returns (build_verify_secp_transfer bot_oracle t ixs signers operators)
  unfolding build_verify_secp_transfer
  build_verify_secp_transfer-Returns ixs operators all =
      Returns-bind_any _ _ (verify_instructions-Returns ixs _ all)
        λ p. Returns-return_if _ _ _ (Returns-ok tt)

module _ (reward_manager_key : Pubkey) (new_sender : EthereumAddress) where
  verify_votes-Returns :
      (ixs : List Instruction) (checkmap : Map Bool)
      → All IsLong ixs
      → Returns (verify_votes reward_manager_key new_sender ixs checkmap)
  unfolding verify_votes
  verify_votes-Returns [] checkmap all = Returns-ok checkmap
  verify_votes-Returns (ix ∷ ixs) checkmap (long, all) =
      Returns-bind_any _ _ (get_signer-Returns ix.bytes long) λ signer.
        Returns-bind_any _ _ (check_signer-Returns checkmap signer) λ checkmap'.
          Returns-bind_any _ _ (validate-Returns _ ix.bytes long)
            λ _. verify_votes-Returns ixs checkmap' all

  pub build_verify_secp_add_sender-Returns :
      (ixs : List Instruction) (signers operators : List EthereumAddress)
      → All IsLong ixs
      → Returns (build_verify_secp_add_sender reward_manager_key new_sender ixs signers operators)
  unfolding build_verify_secp_add_sender
  build_verify_secp_add_sender-Returns ixs signers operators all =
      Returns-bind_any _ _ (verify_votes-Returns ixs _ all) λ _. Returns-ok tt
