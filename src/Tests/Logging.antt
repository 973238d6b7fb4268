-- ===== src/Tests/Logging.antt =====
-- A failed run on the concrete chain, and what it logs.
use audius_reward_manager.Prelude.{ℕ, ◌≡◌, refl, List, [], ◌∷◌, ◌++◌, Bytes, eqb, if◌then◌else◌}
use audius_reward_manager.Outcome.{err}
use audius_reward_manager.Error.{
  AudiusProgramError, from, custom, as_u32, sign_collission, wrong_signer, incorect_sender_account,
  incorect_manager_account, wrong_reward_manager_key, wrong_recipient_key, not_enough_signers,
  secp256_instruction_missing, instruction_load_error, repeated_senders,
  signature_verification_failed, operator_collision,
}
use audius_reward_manager.Runtime.{AccountInfo}
use audius_reward_manager.Processor.Dispatch.{dispatch, process_instruction}
use audius_reward_manager.Entrypoint.{Printer, to_string, entrypoint}
use audius_reward_manager.Entrypoint.Texts.{Prints, entrypoint-from}
use audius_reward_manager.Tests.Chain.{chain, program}
use audius_reward_manager.Tests.Scene.{eth, info, manager_key, sender_key, base, ledger, value}

abbrev error_at : ℕ → AudiusProgramError
error_at n =
    if eqb n 0
    then sign_collission
    else if eqb n 1
    then wrong_signer
    else if eqb n 2
    then incorect_sender_account
    else if eqb n 3
    then incorect_manager_account
    else if eqb n 4
    then wrong_reward_manager_key
    else if eqb n 5
    then wrong_recipient_key
    else if eqb n 6
    then not_enough_signers
    else if eqb n 7
    then secp256_instruction_missing
    else if eqb n 8
    then instruction_load_error
    else if eqb n 9
    then repeated_senders
    else if eqb n 10
    then signature_verification_failed
    else operator_collision

abbrev printer : Printer
printer own (custom n) = own (error_at n)
printer own _ = "Error" ∷ []

prints : Prints printer
unfolding as_u32
prints own sign_collission = refl
prints own wrong_signer = refl
prints own incorect_sender_account = refl
prints own incorect_manager_account = refl
prints own wrong_reward_manager_key = refl
prints own wrong_recipient_key = refl
prints own not_enough_signers = refl
prints own secp256_instruction_missing = refl
prints own instruction_load_error = refl
prints own repeated_senders = refl
prints own signature_verification_failed = refl
prints own operator_collision = refl

-- The accounts of `AddSender`, without any sender that votes.
abbrev accounts : List AccountInfo
accounts = info manager_key ∷ base ∷ base ∷ info (sender_key (eth 24)) ∷ base ∷ base ∷ base ∷ []

abbrev input : Bytes
input = 3 ∷ (eth 24 ++ eth 25)

fails : process_instruction (chain []) program accounts input ledger ≡ err (from not_enough_signers)
unfolding process_instruction dispatch value from as_u32
fails = refl

entrypoint-from_example :
    (entrypoint (chain []) printer program accounts input ledger
      ≡ (to_string not_enough_signers ∷ [], err (from not_enough_signers)))
    × ((other : AudiusProgramError)
        → to_string other ≡ to_string not_enough_signers
        → other ≡ not_enough_signers)
entrypoint-from_example =
    entrypoint-from (chain []) printer prints program accounts input ledger not_enough_signers fails
