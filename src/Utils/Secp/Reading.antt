-- ===== src/Utils/Secp/Reading.antt =====
-- What the program reads of a signature instruction: the address of the signer at byte 12 and the
-- message from byte 97 on.
use audius_reward_manager.Prelude.{
  ◌≤◌, ◌≡◌, ◌⊎◌, List, [], ◌∷◌, Bytes, ==_iff, length, take, drop, arith, if◌then◌else◌, ◌==◌,
}
use audius_reward_manager.Outcome.{ok, err, ◌>>=◌, return_if}
use audius_reward_manager.Error.{from, signature_verification_failed}
use audius_reward_manager.Runtime.{Instruction}
use audius_reward_manager.Utils.Secp.{get_signer_from_secp_instruction, validate_eth_signature}

-- The data of an instruction that names a signer and carries a message.
pub record Attests (signer message secp_data : Bytes) : Type 0 where
  pub fits : 97 ≤ length secp_data
  pub names : take 20 (drop 12 secp_data) ≡ signer
  pub carries : drop 97 secp_data ≡ message

-- Some instruction of a list does.
abbrev pub SomeAttests : Bytes → Bytes → List Instruction → Type 0
SomeAttests signer message [] = ⊥
SomeAttests signer message (ix ∷ ixs) =
    Attests signer message ix.bytes ⊎ SomeAttests signer message ixs

pub get_signer-eq_ok :
    (d : Bytes) {s : Bytes} → get_signer_from_secp_instruction d ≡ ok s → take 20 (drop 12 d) ≡ s
unfolding get_signer_from_secp_instruction
get_signer-eq_ok d h = ground arith

pub validate-eq_ok :
    (m d : Bytes) → validate_eth_signature m d ≡ ok tt → (97 ≤ length d) × (drop 97 d ≡ m)
unfolding validate_eth_signature ◌>>=◌ return_if
validate-eq_ok m d h = ground (arith, ==_iff (drop 97 d) m)

-- Reading succeeds on such data.
pub get_signer-Attests : (s m d : Bytes) → Attests s m d → get_signer_from_secp_instruction d ≡ ok s
unfolding get_signer_from_secp_instruction
get_signer-Attests s m d a = ground arith

pub validate-Attests : (s m d : Bytes) → Attests s m d → validate_eth_signature m d ≡ ok tt
unfolding validate_eth_signature ◌>>=◌ return_if
validate-Attests s m d a = ground (arith, ==_iff (drop 97 d) m)

-- What the two reads of one instruction together show.
pub Attests-of_reads :
    (s m d : Bytes)
    → get_signer_from_secp_instruction d ≡ ok s
    → validate_eth_signature m d ≡ ok tt
    → Attests s m d
Attests-of_reads s m d g v = record {
  fits = (validate-eq_ok m d v).0;
  names = get_signer-eq_ok d g;
  carries = (validate-eq_ok m d v).1;
}

-- The check of the message, on data that is long enough.
pub validate_lem :
    (e d : Bytes)
    → 97 ≤ length d
    → validate_eth_signature e d
      ≡ (if drop 97 d == e then ok tt else err (from signature_verification_failed))
unfolding validate_eth_signature ◌>>=◌ return_if
validate_lem e d h = ground arith
