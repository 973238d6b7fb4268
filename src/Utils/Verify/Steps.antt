-- ===== src/Utils/Verify/Steps.antt =====
-- What one round of each verifier's loop does when it succeeds.
use audius_reward_manager.Prelude.{
  ◌+◌, ◌≡◌, ◌⊎◌, List, ◌∷◌, true, false, some, ◌==◌, ==_iff, contains, set_insert, lookup, insert,
  arith, inl, inr, Bool-cases,
}
use audius_reward_manager.Outcome.{ok, ◌>>=◌, return_if}
use audius_reward_manager.State.{EthereumAddress, SenderAccount}
use audius_reward_manager.Instructions.{Transfer}
use audius_reward_manager.Runtime.{Instruction}
use audius_reward_manager.Utils.Secp.{get_signer_from_secp_instruction}
use audius_reward_manager.Utils.Secp.Reading.{Attests, Attests-of_reads}
use audius_reward_manager.Utils.Checkmap.{check_signer}
use audius_reward_manager.Utils.Verify.{
  Progress, oracle_step, sender_step, bot_oracle_message, senders_message,
}

module _ (bot_oracle : SenderAccount) (transfer_data : Transfer) where
  -- An instruction that the oracle signed and that is counted.
  pub record OracleVote (s : EthereumAddress) (ix : Instruction) (p q : Progress) : Type 0 where
    pub signed : Attests bot_oracle.eth_address (bot_oracle_message transfer_data) ix.bytes
    pub is_new : contains p.operators bot_oracle.operator ≡ false
    pub after : q ≡ record p {
      successful_verifications = p.successful_verifications + 1;
      operators = bot_oracle.operator ∷ p.operators;
    }

  pub oracle_step-eq_ok :
      (s : EthereumAddress) (ix : Instruction) (p : Progress) {q : Progress}
      → get_signer_from_secp_instruction ix.bytes ≡ ok s
      → oracle_step bot_oracle transfer_data s ix p ≡ ok q
      → OracleVote s ix p q ⊎ (((s == bot_oracle.eth_address) ≡ false) × (q ≡ p))
  unfolding oracle_step set_insert ◌>>=◌ return_if
  oracle_step-eq_ok s ix p {q} g h = elim (Bool-cases (s == bot_oracle.eth_address)) [
    | inl same ↦ inl (
        let m = bot_oracle_message transfer_data in
        let e : s ≡ bot_oracle.eth_address = (==_iff _ _).0 same in
        record {
          signed = rw (← e) (Attests-of_reads s m ix.bytes g (ground arith));
          is_new = ground arith;
          after = ground arith;
        })
    | inr differs ↦ inr (differs, ground arith)
  ]

  pub record SenderVote (signers : List EthereumAddress) (s : EthereumAddress) (ix : Instruction)
      (p q : Progress) : Type 0 where
    pub signed : Attests s (senders_message transfer_data bot_oracle.eth_address) ix.bytes
    pub is_signer : contains signers s ≡ true
    pub unmarked : lookup s p.checkmap ≡ some false
    pub after : q ≡ record p {
      successful_verifications = p.successful_verifications + 1;
      checkmap = insert s true p.checkmap;
    }

  pub sender_step-eq_ok :
      (signers : List EthereumAddress) (s : EthereumAddress) (ix : Instruction) (p : Progress)
      {q : Progress}
      → get_signer_from_secp_instruction ix.bytes ≡ ok s
      → sender_step bot_oracle transfer_data signers s ix p ≡ ok q
      → SenderVote signers s ix p q ⊎ ((contains signers s ≡ false) × (q ≡ p))
  unfolding sender_step check_signer ◌>>=◌ return_if
  sender_step-eq_ok signers s ix p {q} g h = elim (Bool-cases (contains signers s)) [
    | inl member ↦ inl (
        let m = senders_message transfer_data bot_oracle.eth_address in
        record {
          signed = Attests-of_reads s m ix.bytes g (ground arith);
          is_signer = member;
          unmarked = ground arith;
          after = ground arith;
        })
    | inr stranger ↦ inr (stranger, ground arith)
  ]
