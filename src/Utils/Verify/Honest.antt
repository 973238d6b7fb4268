-- ===== src/Utils/Verify/Honest.antt =====
-- The verifiers accept what honest senders and an honest oracle sign.
use audius_reward_manager.Prelude.{
  append-nil, Bool-cases, inl, inr, suc, ℕ, suc, ◌+◌, ◌≡◌, refl, sym, ap, ◌∙◌, List, [], ◌∷◌, ◌++◌,
  Bool, true, false, some, Bytes, ◌==◌, ==_iff, ==_refl, contains, set_insert, Map, lookup, insert,
  length, arith,
}
use audius_reward_manager.Prelude.Predicates.{IsDistinct, IsDistinct-before, IsDistinct-behind}
use audius_reward_manager.Outcome.{ok, ◌>>=◌, return_if}
use audius_reward_manager.State.{Pubkey, EthereumAddress, SenderAccount}
use audius_reward_manager.Instructions.{Transfer}
use audius_reward_manager.Runtime.{Instruction}
use audius_reward_manager.Utils.Secp.Reading.{Attests, get_signer-Attests, validate-Attests}
use audius_reward_manager.Utils.Checkmap.{vec_into_checkmap}
use audius_reward_manager.Utils.Verify.{
  Progress, oracle_step, sender_step, verify_instructions, bot_oracle_message, senders_message,
  build_verify_secp_transfer, add_sender_message, verify_votes, build_verify_secp_add_sender,
}
use audius_reward_manager.Utils.Verify.Ballots.{
  Ballots, Unmarked, Within, check_signer-unmarked, Unmarked-insert, Unmarked-vec_into_checkmap,
  mark_all, Unmarked-mark_all,
}

module _ (reward_manager_key : Pubkey) (new_sender : EthereumAddress) where
  verify_votes-Ballots :
      (order : List EthereumAddress) (ixs : List Instruction) (m : Map Bool)
      → Ballots order (add_sender_message reward_manager_key new_sender) ixs
      → IsDistinct order
      → Unmarked m order
      → verify_votes reward_manager_key new_sender ixs m ≡ ok (mark_all order m)
  unfolding verify_votes ◌>>=◌
  verify_votes-Ballots [] [] m cast distinct free = refl
  verify_votes-Ballots [] (ix ∷ ixs) m cast distinct free = absurd cast
  verify_votes-Ballots (s ∷ order) [] m cast distinct free = absurd cast
  verify_votes-Ballots (s ∷ order) (ix ∷ ixs) m cast distinct free =
      let message = add_sender_message reward_manager_key new_sender in
      rw
        (
          get_signer-Attests s message ix.bytes cast.0,
          check_signer-unmarked m s free.0,
          validate-Attests s message ix.bytes cast.0,
        )
        (verify_votes-Ballots order ixs (insert s true m) cast.1 distinct.1
          (Unmarked-insert m s order distinct.0 free.1))

  -- `AddSender`'s verifier accepts instructions with the message for the new sender that different
  -- senders, in any order, have signed, one each.
  pub build_verify_secp_add_sender-Ballots :
      (order signers operators : List EthereumAddress) (ixs : List Instruction)
      → Ballots order (add_sender_message reward_manager_key new_sender) ixs
      → IsDistinct order
      → Within signers order
      → build_verify_secp_add_sender reward_manager_key new_sender ixs signers operators ≡ ok tt
  unfolding build_verify_secp_add_sender ◌>>=◌
  build_verify_secp_add_sender-Ballots order signers operators ixs cast distinct within = rw (
      verify_votes-Ballots order ixs (vec_into_checkmap signers) cast distinct
        (Unmarked-vec_into_checkmap signers order within))

module _ (bot_oracle : SenderAccount) (transfer_data : Transfer) (signers : List EthereumAddress)
    (stranger : contains signers bot_oracle.eth_address ≡ false) where
  abbrev message : Bytes
  message = senders_message transfer_data bot_oracle.eth_address

  -- The variables after the ballots of `order`.
  abbrev voted : List EthereumAddress → Progress → Progress
  voted order p = record p {
    successful_verifications = p.successful_verifications + length order;
    checkmap = mark_all order p.checkmap;
  }

  abbrev approved : Progress → Progress
  approved p = record p {
    successful_verifications = p.successful_verifications + 1;
    operators = bot_oracle.operator ∷ p.operators;
  }

  not_oracle : (s : Bytes) → contains signers s ≡ true → (s == bot_oracle.eth_address) ≡ false
  not_oracle s member = elim (Bool-cases (s == bot_oracle.eth_address)) [
    | inl same ↦ let e = (==_iff s bot_oracle.eth_address).0 same in cc
    | inr differs ↦ differs
  ]

  -- The same variables, with the count written in another way.
  recount :
      (ixs : List Instruction) (p : Progress) (n : ℕ)
      → p.successful_verifications ≡ n
      → verify_instructions bot_oracle transfer_data signers ixs p
        ≡ verify_instructions bot_oracle transfer_data signers ixs
            (record p { successful_verifications = n })
  recount ixs p n e = λ i.
      verify_instructions bot_oracle transfer_data signers ixs
        (record p { successful_verifications = e i })

  sender_round :
      (s : EthereumAddress) (ix : Instruction) (ixs : List Instruction) (p : Progress)
      → Attests s message ix.bytes
      → contains signers s ≡ true
      → lookup s p.checkmap ≡ some false
      → verify_instructions bot_oracle transfer_data signers (ix ∷ ixs) p
        ≡ verify_instructions bot_oracle transfer_data signers ixs (voted (s ∷ []) p)
  unfolding verify_instructions oracle_step sender_step ◌>>=◌
  sender_round s ix ixs p a member free = rw (
    get_signer-Attests s message ix.bytes a,
    not_oracle s member,
    member,
    check_signer-unmarked p.checkmap s free,
    validate-Attests s message ix.bytes a,
  )

  oracle_round :
      (ix : Instruction) (ixs : List Instruction) (p : Progress)
      → Attests bot_oracle.eth_address (bot_oracle_message transfer_data) ix.bytes
      → contains p.operators bot_oracle.operator ≡ false
      → verify_instructions bot_oracle transfer_data signers (ix ∷ ixs) p
        ≡ verify_instructions bot_oracle transfer_data signers ixs (approved p)
  unfolding verify_instructions oracle_step sender_step set_insert ◌>>=◌ return_if
  oracle_round ix ixs p a free = rw (
    get_signer-Attests bot_oracle.eth_address (bot_oracle_message transfer_data) ix.bytes a,
    ==_refl bot_oracle.eth_address,
    validate-Attests bot_oracle.eth_address (bot_oracle_message transfer_data) ix.bytes a,
    free,
    stranger,
  )

  sender_rounds :
      (order : List EthereumAddress) (ixs rest : List Instruction) (p : Progress)
      → Ballots order message ixs
      → IsDistinct order
      → Within signers order
      → Unmarked p.checkmap order
      → verify_instructions bot_oracle transfer_data signers (ixs ++ rest) p
        ≡ verify_instructions bot_oracle transfer_data signers rest (voted order p)
  sender_rounds [] [] rest p cast distinct within free =
      recount rest p (p.successful_verifications + 0) (omega arith)
  sender_rounds [] (ix ∷ ixs) rest p cast distinct within free = absurd cast
  sender_rounds (s ∷ order) [] rest p cast distinct within free = absurd cast
  sender_rounds (s ∷ order) (ix ∷ ixs) rest p cast distinct within free =
      sender_round s ix (ixs ++ rest) p cast.0 within.0 free.0
      ∙ sender_rounds order ixs rest (voted (s ∷ []) p) cast.1 distinct.1 within.1
          (Unmarked-insert p.checkmap s order distinct.0 free.1)
      ∙ recount rest (voted order (voted (s ∷ []) p))
          (p.successful_verifications + suc (length order)) (omega arith)

  end_lem : (p : Progress) → verify_instructions bot_oracle transfer_data signers [] p ≡ ok p
  unfolding verify_instructions
  end_lem p = refl

  -- The variables when the loop ends.
  abbrev after : List EthereumAddress → List EthereumAddress → Progress → Progress
  after front back p = voted back (approved (voted front p))

  verify_instructions-Ballots :
      (front back : List EthereumAddress) (ixs jxs : List Instruction) (ix : Instruction)
      (p : Progress)
      → Ballots front message ixs
      → Ballots back message jxs
      → Attests bot_oracle.eth_address (bot_oracle_message transfer_data) ix.bytes
      → IsDistinct (front ++ back)
      → Within signers front
      → Within signers back
      → Unmarked p.checkmap front
      → Unmarked p.checkmap back
      → contains p.operators bot_oracle.operator ≡ false
      → verify_instructions bot_oracle transfer_data signers (ixs ++ ix ∷ jxs) p
        ≡ verify_instructions bot_oracle transfer_data signers [] (after front back p)
  verify_instructions-Ballots front back ixs jxs ix p a b o distinct wf wb uf ub free =
      sender_rounds front ixs (ix ∷ jxs) p a (IsDistinct-before front back distinct) wf uf
      ∙ oracle_round ix jxs (voted front p) o free
      ∙ ap
          (λ (l : List Instruction).
            verify_instructions bot_oracle transfer_data signers l (approved (voted front p)))
          (sym (append-nil jxs))
      ∙ sender_rounds back jxs [] (approved (voted front p)) b
          (IsDistinct-behind front back distinct) wb
          (Unmarked-mark_all front back p.checkmap distinct ub)

  -- The verifier of a transfer accepts where the oracle is none of the senders and its operator none
  -- of theirs: instructions with the senders' message that all the senders, in any order, have
  -- signed, one each, and with the oracle's message, signed by the oracle, at any place among them.
  pub build_verify_secp_transfer-Ballots :
      (front back operators : List EthereumAddress) (ixs jxs : List Instruction) (ix : Instruction)
      → Ballots front (senders_message transfer_data bot_oracle.eth_address) ixs
      → Ballots back (senders_message transfer_data bot_oracle.eth_address) jxs
      → Attests bot_oracle.eth_address (bot_oracle_message transfer_data) ix.bytes
      → IsDistinct (front ++ back)
      → Within signers front
      → Within signers back
      → length front + length back ≡ length signers
      → contains operators bot_oracle.operator ≡ false
      → build_verify_secp_transfer bot_oracle transfer_data (ixs ++ ix ∷ jxs) signers operators
        ≡ ok tt
  unfolding build_verify_secp_transfer ◌>>=◌ return_if
  build_verify_secp_transfer-Ballots front back operators ixs jxs ix a b o distinct wf wb all free =
      let p : Progress = record {
        successful_verifications = 0;
        checkmap = vec_into_checkmap signers;
        operators = operators;
      } in
      let run =
        verify_instructions-Ballots front back ixs jxs ix p a b o distinct wf wb
          (Unmarked-vec_into_checkmap signers front wf) (Unmarked-vec_into_checkmap signers back wb)
          free in
      let counted : 0 + length front + 1 + length back ≡ length signers + 1 = omega arith in
      rw (run ∙ end_lem (after front back p), counted) (ground arith)
