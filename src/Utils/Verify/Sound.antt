-- ===== src/Utils/Verify/Sound.antt =====
-- What a verifier that accepts has established.
use audius_reward_manager.Prelude.{
  ◌+◌, ◌≡◌, List, true, false, some, Bytes, contains, lookup, length, arith, inl, inr, subst, ◌∙◌,
}
use audius_reward_manager.Outcome.{ok, ◌>>=◌, return_if, bind-eq_ok}
use audius_reward_manager.State.{EthereumAddress, SenderAccount}
use audius_reward_manager.Instructions.{Transfer}
use audius_reward_manager.Runtime.{Instruction}
use audius_reward_manager.Utils.Secp.Reading.{SomeAttests}
use audius_reward_manager.Utils.Checkmap.{vec_into_checkmap}
use audius_reward_manager.Utils.Checkmap.Count.{
  trues, trues-le-length, full-lookup, vec_into_checkmap_fresh, lookup-vec_into_checkmap,
}
use audius_reward_manager.Utils.Verify.{
  Progress, build_verify_secp_transfer, bot_oracle_message, senders_message,
}
use audius_reward_manager.Utils.Verify.Run.{Tallies, Shows, verify_instructions-eq_ok}

-- Every one of `signers` signed `message` in one of the instructions.
abbrev pub AllAttest : List EthereumAddress → Bytes → List Instruction → Type 0
AllAttest signers message ixs =
    (s : EthereumAddress) → contains signers s ≡ true → SomeAttests s message ixs

module _ (bot_oracle : SenderAccount) (transfer_data : Transfer) (ixs : List Instruction)
    (signers operators : List EthereumAddress) where
  abbrev pub start : Progress
  start = record {
    successful_verifications = 0;
    checkmap = vec_into_checkmap signers;
    operators = operators;
  }

  pub accepted_count :
      (q : Progress)
      → Tallies bot_oracle transfer_data signers start q
      → q.successful_verifications ≡ length signers + 1
      → (trues q.checkmap ≡ length q.checkmap)
        × (contains q.operators bot_oracle.operator ≡ true)
        × (contains operators bot_oracle.operator ≡ false)
  accepted_count q t n =
      ground
        (arith, vec_into_checkmap_fresh signers, trues-le-length q.checkmap, t.counted, t.same_size)

  marked :
      (q : Progress) (s : EthereumAddress)
      → trues q.checkmap ≡ length q.checkmap
      → contains signers s ≡ true
      → Shows bot_oracle transfer_data signers ixs start q
      → lookup s q.checkmap ≡ some true
  marked q s full member w =
      let (b, e) = w.present s false (lookup-vec_into_checkmap s signers ∙ rw member) in
      subst (λ v. lookup s q.checkmap ≡ some v) (full-lookup s q.checkmap full e) e

  unmarked : (s : EthereumAddress) → ¬ (lookup s (vec_into_checkmap signers) ≡ some true)
  unmarked s h = ground (arith, lookup-vec_into_checkmap s signers)

  -- If the verifier of a transfer accepts, each of the senders is named as the signer of the senders'
  -- message by one of the instructions, the oracle as that of its own message by one, and the oracle's
  -- operator is none of the senders'.
  pub build_verify_secp_transfer_sound :
      build_verify_secp_transfer bot_oracle transfer_data ixs signers operators ≡ ok tt
      → AllAttest signers (senders_message transfer_data bot_oracle.eth_address) ixs
        × SomeAttests bot_oracle.eth_address (bot_oracle_message transfer_data) ixs
        × (contains operators bot_oracle.operator ≡ false)
  unfolding build_verify_secp_transfer ◌>>=◌ return_if
  build_verify_secp_transfer_sound h =
      let (q, run, h₁) = bind-eq_ok _ _ h in
      let (t, w) = verify_instructions-eq_ok bot_oracle transfer_data signers ixs start run in
      let (full, met, free) = accepted_count q t (ground arith) in
      (
        λ s member. elim (w.sender s (marked q s full member w)) [
          | inl old ↦ absurd (unmarked s old)
          | inr shown ↦ shown
        ],
        elim (w.oracle met) [ inl old ↦ cc | inr shown ↦ shown ],
        free,
      )
