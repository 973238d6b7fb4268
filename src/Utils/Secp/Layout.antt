-- ===== src/Utils/Secp/Layout.antt =====
-- A signature instruction by its parts: the header with the offsets, the address, the signature with
-- its recovery id, the message.
use audius_reward_manager.Prelude.{
  ◌≤◌, ◌≡◌, ◌∙◌, ◌++◌, Bytes, ◌==◌, length, length-append, take, drop, take-append, drop-append,
  drop-append_add, ap, arith, if◌then◌else◌,
}
use audius_reward_manager.Outcome.{ok, err}
use audius_reward_manager.Error.{from, signature_verification_failed}
use audius_reward_manager.Utils.Secp.{get_signer_from_secp_instruction, validate_eth_signature}
use audius_reward_manager.Utils.Secp.Reading.{Attests, get_signer-Attests, validate_lem}

module _ (header signer signature message : Bytes) (header_size : length header ≡ 12)
    (signer_size : length signer ≡ 20) (signature_size : length signature ≡ 65) where
  abbrev secp_data : Bytes
  secp_data = header ++ (signer ++ (signature ++ message))

  message_lem : drop 97 secp_data ≡ message
  message_lem =
      drop-append_add 12 85 header (signer ++ (signature ++ message)) header_size
      ∙ drop-append_add 20 65 signer (signature ++ message) signer_size
      ∙ drop-append 65 signature message signature_size

  fits_lem : 97 ≤ length secp_data
  fits_lem = omega (
    arith,
    header_size,
    signer_size,
    signature_size,
    length-append header (signer ++ (signature ++ message)),
    length-append signer (signature ++ message),
    length-append signature message,
  )

  pub Attests-layout : Attests signer message secp_data
  Attests-layout = record {
    fits = fits_lem;
    names =
        ap (take 20) (drop-append 12 header (signer ++ (signature ++ message)) header_size)
        ∙ take-append 20 signer (signature ++ message) signer_size;
    carries = message_lem;
  }

  -- Where the signer has 20 bytes: whatever the 12 bytes of the header and the 65 bytes of the
  -- signature are, the signer that is read is the address at byte 12, and a check against a message
  -- passes exactly if the bytes from 97 on are that message.
  pub secp_reads_lem :
      (expected : Bytes)
      → (get_signer_from_secp_instruction secp_data ≡ ok signer)
        × (validate_eth_signature expected secp_data
            ≡ (if message == expected then ok tt else err (from signature_verification_failed)))
  secp_reads_lem expected = (
    get_signer-Attests signer message secp_data Attests-layout,
    validate_lem expected secp_data fits_lem ∙ rw message_lem,
  )
