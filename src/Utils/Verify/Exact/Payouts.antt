-- ===== src/Utils/Verify/Exact/Payouts.antt =====
-- Exactly what the verifier of a transfer accepts.
use mathlib.Core.Logic.{◌↔◌}
use audius_reward_manager.Prelude.{
  ◌+◌, ◌≡◌, refl, sym, ap, subst, List, [], ◌∷◌, ◌++◌, true, false, Bytes, contains, length,
  length-append, arith,
}
use audius_reward_manager.Prelude.Predicates.{IsDistinct}
use audius_reward_manager.Outcome.{ok, bind-eq_ok, return_if-eq_ok}
use audius_reward_manager.State.{EthereumAddress, SenderAccount}
use audius_reward_manager.Instructions.{Transfer}
use audius_reward_manager.Runtime.{Instruction}
use audius_reward_manager.Utils.Secp.Reading.{Attests}
use audius_reward_manager.Utils.Verify.{
  Progress, build_verify_secp_transfer, bot_oracle_message, senders_message,
}
use audius_reward_manager.Utils.Verify.Run.{verify_instructions-eq_ok}
use audius_reward_manager.Utils.Verify.Sound.{accepted_count, start}
use audius_reward_manager.Utils.Verify.Ballots.{Ballots, Within, Unmarked-Within}
use audius_reward_manager.Utils.Verify.Honest.{build_verify_secp_transfer-Ballots}
use audius_reward_manager.Utils.Verify.Apart.{build_verify_secp_transfer_apart}
use audius_reward_manager.Utils.Verify.Exact.Rounds.{
  Cast, only_senders, with_oracle, rounds, Cast-of_rounds,
}

-- As many instructions as addresses.
Ballots-length :
    (order : List Bytes) (message : Bytes) (ixs : List Instruction)
    → Ballots order message ixs
    → length ixs ≡ length order
Ballots-length [] message [] cast = refl
Ballots-length [] message (ix ∷ ixs) cast = absurd cast
Ballots-length (s ∷ order) message [] cast = absurd cast
Ballots-length (s ∷ order) message (ix ∷ ixs) (_, cast) =
    omega (arith, Ballots-length order message ixs cast)

Within-split :
    (signers front back : List Bytes)
    → Within signers (front ++ back)
    → Within signers front × Within signers back
Within-split signers [] back within = (tt, within)
Within-split signers (s ∷ front) back (here, within) =
    let (w, v) = Within-split signers front back within in ((here, w), v)

module _ (bot_oracle : SenderAccount) (t : Transfer)
    (signers operators : List EthereumAddress) where
  -- The instructions are a vote for the transfer: ballots of different senders, and at some place
  -- among them that of the oracle, who is none of the senders, with an operator of its own.
  pub record IsVote (ixs : List Instruction) : Type 0 where
    pub front : List EthereumAddress
    pub back : List EthereumAddress
    pub before : List Instruction
    pub after : List Instruction
    pub approval : Instruction
    pub split : ixs ≡ before ++ approval ∷ after
    pub cast_before : Ballots front (senders_message t bot_oracle.eth_address) before
    pub approved : Attests bot_oracle.eth_address (bot_oracle_message t) approval.bytes
    pub cast_after : Ballots back (senders_message t bot_oracle.eth_address) after
    pub distinct : IsDistinct (front ++ back)
    pub within_front : Within signers front
    pub within_back : Within signers back
    pub stranger : contains signers bot_oracle.eth_address ≡ false
    pub own_operator : contains operators bot_oracle.operator ≡ false

  module _ (ixs : List Instruction) where
    IsVote-of_Cast :
        (q : Progress) (stranger : contains signers bot_oracle.eth_address ≡ false)
        → contains q.operators bot_oracle.operator ≡ true
        → contains operators bot_oracle.operator ≡ false
        → Cast bot_oracle t signers stranger ixs (start bot_oracle t ixs signers operators) q
        → IsVote ixs
    IsVote-of_Cast q stranger met free (only_senders order cast distinct unmarked same) =
        absurd (cc)
    IsVote-of_Cast q stranger met free
          (with_oracle front back before after ix e b c d distinct unmarked new) =
        let (wf, wb) =
          Within-split signers front back (Unmarked-Within signers (front ++ back) unmarked) in
        record {
          front = front;
          back = back;
          before = before;
          after = after;
          approval = ix;
          split = e;
          cast_before = b;
          approved = c;
          cast_after = d;
          distinct = distinct;
          within_front = wf;
          within_back = wb;
          stranger = stranger;
          own_operator = free;
        }

    -- Where there is one instruction more than there are senders, as `check_secp_signs` asks for, the
    -- verifier of a transfer accepts exactly the votes for the transfer: instruction by instruction,
    -- each names another sender as signer and carries the senders' message, but for one, at any place,
    -- which names the oracle and carries the oracle's; the oracle is none of the senders, and its
    -- operator none of theirs.
    pub build_verify_secp_transfer_iff :
        length ixs ≡ length signers + 1
        → (build_verify_secp_transfer bot_oracle t ixs signers operators ≡ ok tt) ↔ IsVote ixs
    unfolding build_verify_secp_transfer
    build_verify_secp_transfer_iff count = (
      λ h.
          let (q, run, h₁) = bind-eq_ok _ _ h in
          let (counted, _) = return_if-eq_ok _ _ _ h₁ in
          let (tallies, _) =
            verify_instructions-eq_ok bot_oracle t signers ixs
              (start bot_oracle t ixs signers operators) run in
          let total : q.successful_verifications ≡ length signers + 1 = ground arith in
          let (_, met, free) = accepted_count bot_oracle t ixs signers operators q tallies total in
          let stranger = build_verify_secp_transfer_apart bot_oracle t ixs signers operators h in
          IsVote-of_Cast q stranger met free (
            Cast-of_rounds bot_oracle t signers stranger ixs
              (start bot_oracle t ixs signers operators) q
              (rounds bot_oracle t signers stranger ixs (start bot_oracle t ixs signers operators)
                run)
              (omega (arith, total, count))),
      λ v.
          subst (λ l. build_verify_secp_transfer bot_oracle t l signers operators ≡ ok tt)
            (sym v.split)
            (build_verify_secp_transfer-Ballots bot_oracle t signers v.stranger v.front v.back
              operators v.before v.after v.approval v.cast_before v.cast_after v.approved v.distinct
              v.within_front v.within_back
              (omega (
                arith,
                count,
                Ballots-length v.front _ v.before v.cast_before,
                Ballots-length v.back _ v.after v.cast_after,
                length-append v.before (v.approval ∷ v.after),
                ap length v.split,
              ))
              v.own_operator),
    )
