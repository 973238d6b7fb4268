-- ===== src/Tests/Signing.antt =====
-- The client's signatures at concrete data.
use audius_reward_manager.Prelude.{
  ◌≡◌, refl, List, [], ◌∷◌, ◌++◌, some, Bytes, replicate, get_elem?, arith,
}
use audius_reward_manager.Outcome.{ok}
use audius_reward_manager.Runtime.{Instruction}
use audius_reward_manager.Utils.Secp.{get_signer_from_secp_instruction, validate_eth_signature}
use audius_reward_manager.Cli.Client.{SecpSignatureOffsets}
use audius_reward_manager.Cli.Signing.{new_secp256k1_instruction_2_0, sign_message}
use audius_reward_manager.Cli.Signing.Reading.{
  Points, new_secp256k1_instruction-read, new_secp256k1_instruction-Points, signed_from,
  sign_message_lem,
}
use audius_reward_manager.Cli.Signing.Indices.{sign_message-indices}
use audius_reward_manager.Tests.Chain.{chain}
use audius_reward_manager.Tests.Scene.{key, eth}
use audius_reward_manager.Tests.Desk.{client, client-HasSizes}

abbrev message : Bytes
message = 65 ∷ 66 ∷ []

new_secp256k1_instruction-read_example :
    (ix : Instruction) × (new_secp256k1_instruction_2_0 (chain []) client (key 21) message 3
      ≡ ok ix)
    × (ix.program_id ≡ 1 ∷ [])
    × (get_signer_from_secp_instruction ix.bytes ≡ ok (eth 21))
    × (validate_eth_signature message ix.bytes ≡ ok tt)
unfolding replicate
new_secp256k1_instruction-read_example =
    new_secp256k1_instruction-read (chain []) client client-HasSizes (key 21) message 3
      (omega arith)

new_secp256k1_instruction-Points_example :
    (ix : Instruction) × (o : SecpSignatureOffsets) × (new_secp256k1_instruction_2_0
        (chain [])
        client
        (key 21)
        message
        3
      ≡ ok ix)
    × Points (chain []) client client-HasSizes (key 21) message 3 ix.bytes o
new_secp256k1_instruction-Points_example =
    new_secp256k1_instruction-Points (chain []) client client-HasSizes (key 21) message 3
      (omega arith)

abbrev keys : List Bytes
keys = key 21 ∷ key 22 ∷ []

abbrev signed : List Instruction
signed = signed_from (chain []) client client-HasSizes 0 message keys

signs : sign_message (chain []) client message keys ≡ ok signed
signs = sign_message_lem (chain []) client client-HasSizes message keys (omega arith) (omega arith)

-- Behind one other instruction, the signature of the second key names the instruction 1 and is the
-- instruction 2.
sign_message-indices_example :
    (ix : Instruction) × (o : SecpSignatureOffsets) × (get_elem?
        ((record { program_id = 3 ∷ []; accounts = []; bytes = [] } ∷ []) ++ (signed ++ []))
        2
      ≡ some ix)
    × Points (chain []) client client-HasSizes (key 22) message 1 ix.bytes o
unfolding get_elem?
sign_message-indices_example =
    sign_message-indices (chain []) client client-HasSizes message keys
      (record { program_id = 3 ∷ []; accounts = []; bytes = [] } ∷ []) [] 1 (omega arith)
      (omega arith) signs refl
