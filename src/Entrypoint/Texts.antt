-- ===== src/Entrypoint/Texts.antt =====
-- What the log tells of a failed run.
use Prim.Native.String.{String}
use text.Mathlib.Text.{◌==◌ as str_eq}
use audius_reward_manager.Prelude.{◌≡◌, refl, sym, ap, ◌∙◌, List, [], ◌∷◌, Bytes, if◌then◌else◌}
use audius_reward_manager.Outcome.{err}
use audius_reward_manager.Error.{
  AudiusProgramError, from, custom, as_u32, sign_collission, wrong_signer, incorect_sender_account,
  incorect_manager_account, wrong_reward_manager_key, wrong_recipient_key, not_enough_signers,
  secp256_instruction_missing, instruction_load_error, repeated_senders,
  signature_verification_failed, operator_collision,
}
use audius_reward_manager.State.{Pubkey}
use audius_reward_manager.Runtime.{AccountInfo, Ledger, Env}
use audius_reward_manager.Processor.Dispatch.{process_instruction}
use audius_reward_manager.Entrypoint.{Log, to_string, print, Printer, catch, entrypoint}

-- The error that has a text.
abbrev error_of : String → AudiusProgramError
error_of s =
    if str_eq s "Signature with an already met principal"
    then sign_collission
    else if str_eq s "Unexpected signer met"
    then wrong_signer
    else if str_eq s "Incorect sender account"
    then incorect_sender_account
    else if str_eq s "Incorect account manager"
    then incorect_manager_account
    else if str_eq s "Wrong reward manager key"
    then wrong_reward_manager_key
    else if str_eq s "Wrong recipient Solana key"
    then wrong_recipient_key
    else if str_eq s "Isn't enough signers keys"
    then not_enough_signers
    else if str_eq s "Secp256 instruction missing"
    then secp256_instruction_missing
    else if str_eq s "Instruction load error"
    then instruction_load_error
    else if str_eq s "Repeated sender"
    then repeated_senders
    else if str_eq s "Signature verification failed"
    then signature_verification_failed
    else operator_collision

error_of-to_string : (e : AudiusProgramError) → error_of (to_string e) ≡ e
unfolding to_string
error_of-to_string sign_collission = refl
error_of-to_string wrong_signer = refl
error_of-to_string incorect_sender_account = refl
error_of-to_string incorect_manager_account = refl
error_of-to_string wrong_reward_manager_key = refl
error_of-to_string wrong_recipient_key = refl
error_of-to_string not_enough_signers = refl
error_of-to_string secp256_instruction_missing = refl
error_of-to_string instruction_load_error = refl
error_of-to_string repeated_senders = refl
error_of-to_string signature_verification_failed = refl
error_of-to_string operator_collision = refl

-- What `solana_program` documents: it prints a custom code as the error of `E` with this code.
abbrev pub Prints : Printer → Type 0
Prints printer =
    (own : AudiusProgramError → Log) (e : AudiusProgramError)
    → printer own (custom (as_u32 e)) ≡ own e

module _ (env : Env) (printer : Printer) (prints : Prints printer) (program_id : Pubkey)
    (accounts : List AccountInfo) (instruction_data : Bytes) (w : Ledger) where
  entrypoint-err :
      (e : AudiusProgramError)
      → process_instruction env program_id accounts instruction_data w ≡ err (from e)
      → entrypoint env printer program_id accounts instruction_data w
        ≡ (to_string e ∷ [], err (from e))
  unfolding entrypoint from print
  entrypoint-err e h =
      ap (catch printer) h ∙ ap (λ (log : Log). (log, err (custom (as_u32 e)))) (prints print e)

  -- The log names the error. Where the runtime prints a code as the error that has it: if the
  -- processor fails with one of the program's own errors, the entry point logs the text of this error
  -- and nothing else, and returns the error; and no other error has this text.
  pub entrypoint-from :
      (e : AudiusProgramError)
      → process_instruction env program_id accounts instruction_data w ≡ err (from e)
      → (entrypoint env printer program_id accounts instruction_data w
          ≡ (to_string e ∷ [], err (from e)))
        × ((other : AudiusProgramError) → to_string other ≡ to_string e → other ≡ e)
  entrypoint-from e h = (
    entrypoint-err e h,
    λ other same. sym (error_of-to_string other) ∙ ap error_of same ∙ error_of-to_string e,
  )
