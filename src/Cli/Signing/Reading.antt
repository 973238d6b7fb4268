-- ===== src/Cli/Signing/Reading.antt =====
-- The program reads back what the client signs, and the header says where the parts stand.
use audius_reward_manager.Prelude.{
  sym, ℕ, ◌+◌, ◌<◌, ◌≤◌, ◌≡◌, ◌^◌, ◌%◌, refl, ap, ◌∙◌, List, [], ◌∷◌, ◌++◌, Bytes, length,
  length-append, take, drop, take-append, drop-append, drop-append_add, arith, append-nil,
}
use audius_reward_manager.Outcome.{ok, ◌>>=◌}
use audius_reward_manager.Runtime.{Instruction, Env}
use audius_reward_manager.Utils.Secp.{get_signer_from_secp_instruction, validate_eth_signature}
use audius_reward_manager.Utils.Secp.Reading.{Attests, get_signer-Attests, validate-Attests}
use audius_reward_manager.Utils.Secp.Layout.{Attests-layout}
use audius_reward_manager.Cli.Client.{SecretKey, SecpSignatureOffsets, Client, HasSizes}
use audius_reward_manager.Cli.Signing.{new_secp256k1_instruction_2_0, sign_from, sign_message}
use audius_reward_manager.Cli.Signing.Layout.{
  offsets_of, address_of, signature_of, secp_instruction, new_secp256k1_instruction_lem,
}

take_all : (m : Bytes) → take (length m) m ≡ m
take_all m = ap (take (length m)) (sym (append-nil m)) ∙ take-append (length m) m [] refl

module _ (env : Env) (client : Client) (sizes : HasSizes client) where
  length-signature_of :
      (k : SecretKey) (m : Bytes) → length (signature_of env client sizes k m) ≡ 65
  length-signature_of k m = omega (
    arith,
    length-append ((client.sign (client.keccak256 m) k).0)
        ((client.sign (client.keccak256 m) k).1 ∷ []),
    sizes.signature_size (client.keccak256 m) k,
  )

  pub secp_instruction-Attests :
      (k : SecretKey) (m : Bytes) (i : ℕ)
      → Attests (address_of env client sizes k) m (secp_instruction env client sizes k m i).bytes
  secp_instruction-Attests k m i =
      Attests-layout (1 ∷ client.serialize_offsets (offsets_of i (length m)))
        (address_of env client sizes k) (signature_of env client sizes k m) m
        (omega (arith, sizes.offsets_size (offsets_of i (length m))))
        (sizes.address_size (client.from_secret_key k)) (length-signature_of k m)

  -- For a message of less than 2^16 bytes: the client builds an instruction of the signature program,
  -- and the program reads the address of the key as its signer and accepts the message.
  pub new_secp256k1_instruction-read :
      (k : SecretKey) (m : Bytes) (i : ℕ)
      → length m < 2 ^ 16
      → (ix : Instruction) × (new_secp256k1_instruction_2_0 env client k m i ≡ ok ix)
        × (ix.program_id ≡ env.secp256k1_program_id)
        × (get_signer_from_secp_instruction ix.bytes
            ≡ ok (client.construct_eth_pubkey (client.from_secret_key k)))
        × (validate_eth_signature m ix.bytes ≡ ok tt)
  new_secp256k1_instruction-read k m i small =
      let a = secp_instruction-Attests k m i in
      (
        secp_instruction env client sizes k m i,
        new_secp256k1_instruction_lem env client sizes k m i small,
        refl,
        get_signer-Attests _ m _ a,
        validate-Attests _ m _ a,
      )

  -- The header of an instruction holds these offsets, they name the instruction `i`, and lead to the
  -- address, the signature with its recovery id, and the message.
  pub record Points (k : SecretKey) (m : Bytes) (i : ℕ) (d : Bytes) (o : SecpSignatureOffsets)
      : Type 0 where
    pub header : take 12 d ≡ 1 ∷ client.serialize_offsets o
    pub signature_index : o.signature_instruction_index ≡ i
    pub eth_address_index : o.eth_address_instruction_index ≡ i
    pub message_index : o.message_instruction_index ≡ i
    pub eth_address :
        take 20 (drop o.eth_address_offset d)
        ≡ client.construct_eth_pubkey (client.from_secret_key k)
    pub signature :
        take 65 (drop o.signature_offset d)
        ≡ (client.sign (client.keccak256 m) k).0 ++ (client.sign (client.keccak256 m) k).1 ∷ []
    pub message : take o.message_data_size (drop o.message_data_offset d) ≡ m

  pub secp_instruction-Points :
      (k : SecretKey) (m : Bytes) (i : ℕ)
      → Points k m i (secp_instruction env client sizes k m i).bytes (offsets_of i (length m))
  secp_instruction-Points k m i =
      let h : Bytes = 1 ∷ client.serialize_offsets (offsets_of i (length m)) in
      let e = address_of env client sizes k in
      let s = signature_of env client sizes k m in
      let hs : length h ≡ 12 = omega (arith, sizes.offsets_size (offsets_of i (length m))) in
      let a = secp_instruction-Attests k m i in
      record {
        header = take-append 12 h (e ++ (s ++ m)) hs;
        signature_index = refl;
        eth_address_index = refl;
        message_index = refl;
        eth_address = a.names;
        signature =
            ap (take 65) (
              drop-append_add 12 20 h (e ++ (s ++ m)) hs
              ∙ drop-append 20 e (s ++ m) (sizes.address_size (client.from_secret_key k)))
            ∙ take-append 65 s m (length-signature_of k m);
        message = ap (take (length m)) a.carries ∙ take_all m;
      }

  -- For a message of less than 2^16 bytes the built instruction has offsets in its header that lead
  -- to its own address, signature and message, in the instruction `i`.
  pub new_secp256k1_instruction-Points :
      (k : SecretKey) (m : Bytes) (i : ℕ)
      → length m < 2 ^ 16
      → (ix : Instruction) × (o : SecpSignatureOffsets) × (new_secp256k1_instruction_2_0 env client
            k m i
          ≡ ok ix)
        × Points k m i ix.bytes o
  new_secp256k1_instruction-Points k m i small = (
    secp_instruction env client sizes k m i,
    offsets_of i (length m),
    new_secp256k1_instruction_lem env client sizes k m i small,
    secp_instruction-Points k m i,
  )

  -- The instructions that `sign_message` makes, from the index `i` on.
  abbrev pub signed_from : ℕ → Bytes → List SecretKey → List Instruction
  signed_from i m [] = []
  signed_from i m (k ∷ ks) = secp_instruction env client sizes k m i ∷ signed_from (i + 1) m ks

  sign_from_lem :
      (i : ℕ) (m : Bytes) (ks : List SecretKey)
      → length m < 2 ^ 16
      → i + length ks ≤ 256
      → sign_from env client i m ks ≡ ok (signed_from i m ks)
  unfolding sign_from ◌>>=◌
  sign_from_lem i m [] small few = refl
  sign_from_lem i m (k ∷ ks) small few =
      let e : i % 2 ^ 8 ≡ i = omega arith in
      rw (
        e,
        new_secp256k1_instruction_lem env client sizes k m i small,
        sign_from_lem (i + 1) m ks small (omega arith),
      )

  pub sign_message_lem :
      (m : Bytes) (ks : List SecretKey)
      → length m < 2 ^ 16
      → length ks ≤ 256
      → sign_message env client m ks ≡ ok (signed_from 0 m ks)
  unfolding sign_message
  sign_message_lem m ks small few = sign_from_lem 0 m ks small (omega arith)
