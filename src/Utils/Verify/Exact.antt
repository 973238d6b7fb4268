-- ===== src/Utils/Verify/Exact.antt =====
-- Exactly what the verifier of `AddSender` accepts.
pub mod Rounds
pub mod Payouts
pub mod Box
use mathlib.Core.Logic.{◌↔◌}
use audius_reward_manager.Prelude.{
  ◌≡◌, refl, List, [], ◌∷◌, Bool, true, false, Bytes, ==_iff, contains, Map, insert, lookup-insert,
  arith,
}
use audius_reward_manager.Prelude.Predicates.{IsDistinct}
use audius_reward_manager.Outcome.{ok, bind-eq_ok}
use audius_reward_manager.State.{Pubkey, EthereumAddress}
use audius_reward_manager.Runtime.{Instruction}
use audius_reward_manager.Utils.Secp.Reading.{Attests-of_reads}
use audius_reward_manager.Utils.Checkmap.{vec_into_checkmap}
use audius_reward_manager.Utils.Checkmap.Count.{lookup-vec_into_checkmap, check_signer-eq_ok}
use audius_reward_manager.Utils.Verify.{
  add_sender_message, verify_votes, build_verify_secp_add_sender,
}
use audius_reward_manager.Utils.Verify.Ballots.{
  Ballots, Unmarked, Within, Unmarked-of_insert, Unmarked-Within,
}
use audius_reward_manager.Utils.Verify.Honest.{build_verify_secp_add_sender-Ballots}

module _ (reward_manager_key : Pubkey) (new_sender : EthereumAddress) where
  -- The instructions that the loop accepts are ballots of different addresses that were unmarked.
  verify_votes-Unmarked :
      (ixs : List Instruction) (m : Map Bool) {d : Map Bool}
      → verify_votes reward_manager_key new_sender ixs m ≡ ok d
      → (order : List EthereumAddress) × Ballots order
          (add_sender_message reward_manager_key new_sender)
          ixs
        × IsDistinct order
        × Unmarked m order
  unfolding verify_votes
  verify_votes-Unmarked [] m h = ([], tt, tt, tt)
  verify_votes-Unmarked (ix ∷ ixs) m {d = d} h =
      let message = add_sender_message reward_manager_key new_sender in
      let (s, g, h₁) = bind-eq_ok _ _ h in
      let (c, k, h₂) = bind-eq_ok _ _ h₁ in
      let (_, v, h₃) = bind-eq_ok _ _ h₂ in
      let (free, e) = check_signer-eq_ok m s k in
      let (order, cast, distinct, rest) =
        verify_votes-Unmarked ixs (insert s true m) {d = d} (rw (← e) h₃) in
      let (fresh, before) = Unmarked-of_insert m s order rest in
      (
        s ∷ order,
        (Attests-of_reads s message ix.bytes g v, cast),
        (fresh, distinct),
        (free, before),
      )

  -- The verifier of `AddSender` accepts exactly the lists of instructions that are ballots for the
  -- new sender by different senders: instruction by instruction, each names another sender as signer
  -- and carries the message. The order of the senders, and the operators, do not matter.
  pub build_verify_secp_add_sender_iff :
      (ixs : List Instruction) (signers operators : List EthereumAddress)
      → (build_verify_secp_add_sender reward_manager_key new_sender ixs signers operators ≡ ok tt)
        ↔ ((order : List EthereumAddress) × Ballots order
              (add_sender_message reward_manager_key new_sender)
              ixs
            × IsDistinct order
            × Within signers order)
  unfolding build_verify_secp_add_sender
  build_verify_secp_add_sender_iff ixs signers operators = (
    λ h.
        let (d, run, _) = bind-eq_ok _ _ h in
        let (order, cast, distinct, free) =
          verify_votes-Unmarked ixs (vec_into_checkmap signers) run in
        (order, cast, distinct, Unmarked-Within signers order free),
    λ (order, cast, distinct, within).
        build_verify_secp_add_sender-Ballots reward_manager_key new_sender order signers operators
          ixs cast distinct within,
  )
