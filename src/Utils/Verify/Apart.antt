-- ===== src/Utils/Verify/Apart.antt =====
-- The oracle of an accepted transfer is none of the senders.
use audius_reward_manager.Prelude.{
  ◌≡◌, sym, ◌∙◌, List, [], ◌∷◌, inl, inr, true, false, Bytes, contains, Bool-cases,
}
use audius_reward_manager.Outcome.{ok, bind-eq_ok, ok-injective}
use audius_reward_manager.State.{EthereumAddress, SenderAccount}
use audius_reward_manager.Instructions.{Transfer}
use audius_reward_manager.Runtime.{Instruction}
use audius_reward_manager.Utils.Secp.{get_signer_from_secp_instruction}
use audius_reward_manager.Utils.Secp.Reading.{Attests, SomeAttests, get_signer-Attests}
use audius_reward_manager.Utils.Verify.{
  Progress, oracle_step, sender_step, verify_instructions, bot_oracle_message, senders_message,
  build_verify_secp_transfer,
}
use audius_reward_manager.Utils.Verify.Steps.{sender_step-eq_ok}
use audius_reward_manager.Utils.Verify.Separation.{senders_message-ne-bot_oracle_message}
use audius_reward_manager.Utils.Verify.Sound.{build_verify_secp_transfer_sound}

module _ (bot_oracle : SenderAccount) (transfer_data : Transfer) (signers : List EthereumAddress)
    (member : contains signers bot_oracle.eth_address ≡ true) where
  -- An instruction cannot carry both messages.
  one_message :
      (s s' d : Bytes)
      → Attests s (senders_message transfer_data bot_oracle.eth_address) d
      → ¬ Attests s' (bot_oracle_message transfer_data) d
  one_message s s' d a b =
      senders_message-ne-bot_oracle_message transfer_data bot_oracle.eth_address
        (sym a.carries ∙ b.carries)

  -- A round that the oracle signed fails.
  oracle_round :
      (s : EthereumAddress) (ix : Instruction) (p q r : Progress)
      → get_signer_from_secp_instruction ix.bytes ≡ ok s
      → oracle_step bot_oracle transfer_data s ix p ≡ ok q
      → sender_step bot_oracle transfer_data signers s ix q ≡ ok r
      → ¬ Attests bot_oracle.eth_address (bot_oracle_message transfer_data) ix.bytes
  oracle_round s ix p q r g h h' a =
      let e : s ≡ bot_oracle.eth_address =
        ok-injective (sym g ∙ get_signer-Attests _ (bot_oracle_message transfer_data) ix.bytes a) in
      elim (sender_step-eq_ok bot_oracle transfer_data signers s ix q g h') [
        | inl v ↦ one_message s bot_oracle.eth_address ix.bytes v.signed a
        | inr (stranger, _) ↦ let clash : contains signers s ≡ true = rw e member in absurd (cc)
      ]

  no_oracle :
      (ixs : List Instruction) (p : Progress) {q : Progress}
      → verify_instructions bot_oracle transfer_data signers ixs p ≡ ok q
      → ¬ SomeAttests bot_oracle.eth_address (bot_oracle_message transfer_data) ixs
  unfolding verify_instructions
  no_oracle [] p h shown = shown
  no_oracle (ix ∷ ixs) p h shown =
      let (s, g, h₁) = bind-eq_ok (get_signer_from_secp_instruction ix.bytes) _ h in
      let (p', o, h₂) = bind-eq_ok (oracle_step bot_oracle transfer_data s ix p) _ h₁ in
      let (p'', v, h₃) = bind-eq_ok (sender_step bot_oracle transfer_data signers s ix p') _ h₂ in
      elim shown [
        | inl here ↦ oracle_round s ix p p' p'' g o v here
        | inr later ↦ no_oracle ixs p'' h₃ later
      ]

  rejected :
      (ixs : List Instruction) (operators : List EthereumAddress)
      → ¬ (build_verify_secp_transfer bot_oracle transfer_data ixs signers operators ≡ ok tt)
  unfolding build_verify_secp_transfer
  rejected ixs operators h =
      let (_, run, _) = bind-eq_ok _ _ h in
      no_oracle ixs _ run
        (build_verify_secp_transfer_sound bot_oracle transfer_data ixs signers operators h).1

-- If the verifier of a transfer accepts, the oracle's address is none of the senders'.
pub build_verify_secp_transfer_apart :
    (bot_oracle : SenderAccount) (transfer_data : Transfer) (ixs : List Instruction)
    (signers operators : List EthereumAddress)
    → build_verify_secp_transfer bot_oracle transfer_data ixs signers operators ≡ ok tt
    → contains signers bot_oracle.eth_address ≡ false
build_verify_secp_transfer_apart bot_oracle transfer_data ixs signers operators h =
    elim (Bool-cases (contains signers bot_oracle.eth_address)) [
      | inl member ↦ absurd (rejected bot_oracle transfer_data signers member ixs operators h)
      | inr apart ↦ apart
    ]
