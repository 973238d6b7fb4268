-- ===== src/Cli/Signing.antt =====
-- cli/src/utils.rs: the signature instructions that the client puts before an instruction of the
-- program.
pub mod Layout
pub mod Reading
pub mod Votes
pub mod Indices
use audius_reward_manager.Prelude.{ℕ, ◌+◌, ◌%◌, ◌^◌, List, [], ◌∷◌, Bytes, length, replicate, eqb}
use audius_reward_manager.Outcome.{Result, ok, ◌>>=◌, ◌>>◌}
use audius_reward_manager.Runtime.{Instruction, Env}
use audius_reward_manager.Cli.Client.{Error, SecretKey, SecpSignatureOffsets, Client}
use audius_reward_manager.Cli.Buffer.{saturating_add, assert, copy_from_slice, set_byte, write_into}

module _ (env : Env) (client : Client) where
  -- `instruction_index` is a `u8`.
  unfoldable pub new_secp256k1_instruction_2_0 : SecretKey → Bytes → ℕ → Result Error Instruction
  new_secp256k1_instruction_2_0 priv_key message_arr instruction_index = do
    let secp_pubkey = client.from_secret_key priv_key
    let eth_pubkey = client.construct_eth_pubkey secp_pubkey
    let message_hash = client.keccak256 message_arr
    assert (eqb (length message_hash) 32)
    let (signature_arr, recovery_id) = client.sign message_hash priv_key
    assert (eqb (length signature_arr) client.signature_serialized_size)
    let zeros =
        replicate
          (saturating_add
            (saturating_add
              (saturating_add (saturating_add client.data_start (length eth_pubkey))
                (length signature_arr))
              (length message_arr))
            1)
          0
    let eth_address_offset = client.data_start
    data₁ ←
        copy_from_slice zeros eth_address_offset
          (saturating_add eth_address_offset (length eth_pubkey)) eth_pubkey
    let signature_offset = saturating_add client.data_start (length eth_pubkey)
    data₂ ←
        copy_from_slice data₁ signature_offset
          (saturating_add signature_offset (length signature_arr)) signature_arr
    data₃ ← set_byte data₂ (saturating_add signature_offset (length signature_arr)) recovery_id
    let message_data_offset =
        saturating_add (saturating_add signature_offset (length signature_arr)) 1
    data₄ ← copy_from_slice data₃ message_data_offset (length data₃) message_arr
    data₅ ← set_byte data₄ 0 1
    let offsets : SecpSignatureOffsets = record {
      signature_offset = signature_offset % 2 ^ 16;
      signature_instruction_index = instruction_index;
      eth_address_offset = eth_address_offset % 2 ^ 16;
      eth_address_instruction_index = instruction_index;
      message_data_offset = message_data_offset % 2 ^ 16;
      message_data_size = length message_arr % 2 ^ 16;
      message_instruction_index = instruction_index;
    }
    instruction_data ← write_into data₅ 1 client.data_start (client.serialize_offsets offsets)
    ok (record { program_id = env.secp256k1_program_id; accounts = []; bytes = instruction_data })

  -- The loop of `sign_message` from `index` on; `index as u8` wraps.
  unfoldable pub sign_from : ℕ → Bytes → List SecretKey → Result Error (List Instruction)
  sign_from index message [] = ok []
  sign_from index message (signer ∷ signers) = do
    instruction ← new_secp256k1_instruction_2_0 signer message (index % 2 ^ 8)
    instructions ← sign_from (index + 1) message signers
    ok (instruction ∷ instructions)

  unfoldable pub sign_message : Bytes → List SecretKey → Result Error (List Instruction)
  unfolding sign_from
  sign_message message signers = sign_from 0 message signers
