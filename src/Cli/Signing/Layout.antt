-- ===== src/Cli/Signing/Layout.antt =====
-- What `new_secp256k1_instruction_2_0` writes: the header with the offsets, the address, the
-- signature with its recovery id, and the message.
use audius_reward_manager.State.{EthereumAddress}
use audius_reward_manager.Cli.Signing.{new_secp256k1_instruction_2_0}
use audius_reward_manager.Runtime.{Instruction, Env}
use audius_reward_manager.Cli.Client.{SecretKey, HasSizes, Client, SecpSignatureOffsets}
use audius_reward_manager.Prelude.{
  ◌%◌, ◌^◌, ◌<◌, append_assoc, append-nil, ℕ, ◌+◌, ◌≡◌, refl, sym, ap, ◌∙◌, [], ◌∷◌, ◌++◌, Bytes,
  length, length-append, length-replicate, replicate, arith,
}
use audius_reward_manager.Outcome.{◌>>=◌, ok}
use audius_reward_manager.Cli.Buffer.{saturating_add, assert, copy_from_slice, set_byte, write_into}
use audius_reward_manager.Cli.Buffer.Laws.{
  saturating_add_lem, replicate-add, copy_from_slice-append, write_into-append, set_byte-append,
}

-- Zeros for the header and for the four parts after it.
zeros : ℕ → Bytes
zeros n = replicate n 0

length-zeros : (n : ℕ) → length (zeros n) ≡ n
unfolding zeros
length-zeros n = length-replicate n 0

-- The buffer is filled part by part.
module _ (eth signature message header : Bytes) (recovery : ℕ) (eth_size : length eth ≡ 20)
    (signature_size : length signature ≡ 64) (header_size : length header ≡ 11) where
  abbrev blank : Bytes
  blank = zeros 12 ++ (zeros 20 ++ (zeros 64 ++ (0 ∷ zeros (length message))))

  blank_lem : replicate {A = ℕ} (96 + length message + 1) 0 ≡ blank
  unfolding zeros replicate
  blank_lem =
      ap zeros (omega arith)
      ∙ replicate-add 12 (20 + (64 + (1 + length message))) 0
      ∙ ap (λ (d : Bytes). zeros 12 ++ d)
          (replicate-add 20 (64 + (1 + length message)) 0
            ∙ ap (λ (d : Bytes). zeros 20 ++ d)
                (replicate-add 64 (1 + length message) 0
                  ∙ ap (λ (d : Bytes). zeros 64 ++ d) (replicate-add 1 (length message) 0)))

  -- What follows the header.
  abbrev body : Bytes
  body = eth ++ ((signature ++ recovery ∷ []) ++ message)

  with_address :
      copy_from_slice blank 12 32 eth
      ≡ ok ((zeros 12 ++ eth) ++ (zeros 64 ++ (0 ∷ zeros (length message))))
  with_address =
      copy_from_slice-append (zeros 12) (zeros 20) (zeros 64 ++ (0 ∷ zeros (length message))) eth 12
        32 (length-zeros 12) (omega (arith, length-zeros 20)) (omega (arith, length-zeros 20))
      ∙ ap ok (sym (append_assoc (zeros 12) eth (zeros 64 ++ (0 ∷ zeros (length message)))))

  with_signature :
      copy_from_slice
        ((zeros 12 ++ eth) ++ (zeros 64 ++ (0 ∷ zeros (length message))))
        32
        96
        signature
      ≡ ok (((zeros 12 ++ eth) ++ signature) ++ 0 ∷ zeros (length message))
  with_signature =
      copy_from_slice-append (zeros 12 ++ eth) (zeros 64) (0 ∷ zeros (length message)) signature 32
        96 (omega (arith, length-append (zeros 12) eth, length-zeros 12))
        (omega (arith, length-zeros 64)) (omega (arith, length-zeros 64))
      ∙ ap ok (sym (append_assoc (zeros 12 ++ eth) signature (0 ∷ zeros (length message))))

  abbrev front : Bytes
  front = (zeros 12 ++ eth) ++ signature

  front_size : length front ≡ 96
  front_size = omega (
    arith,
    length-append (zeros 12 ++ eth) signature,
    length-append (zeros 12) eth,
    length-zeros 12,
  )

  abbrev recovered : Bytes
  recovered = front ++ recovery ∷ zeros (length message)

  with_recovery : set_byte (front ++ 0 ∷ zeros (length message)) 96 recovery ≡ ok recovered
  with_recovery = set_byte-append front (zeros (length message)) 0 recovery 96 front_size

  recovered_lem : recovered ≡ (front ++ recovery ∷ []) ++ (zeros (length message) ++ [])
  recovered_lem = simp (append_assoc, append-nil)

  flat : (front ++ recovery ∷ []) ++ (message ++ []) ≡ zeros 12 ++ body
  flat = simp (append_assoc, append-nil)

  with_message : copy_from_slice recovered 97 (length recovered) message ≡ ok (zeros 12 ++ body)
  with_message =
      ap (λ (d : Bytes). copy_from_slice d 97 (length recovered) message) recovered_lem
      ∙ copy_from_slice-append (front ++ recovery ∷ []) (zeros (length message)) [] message 97
          (length recovered) (omega (arith, length-append front (recovery ∷ []), front_size))
          (omega (
            arith,
            length-append front (recovery ∷ zeros (length message)),
            length-zeros (length message),
            front_size,
          ))
          (omega (arith, length-zeros (length message)))
      ∙ ap ok flat

  with_count : set_byte (zeros 12 ++ body) 0 1 ≡ ok ((1 ∷ []) ++ (zeros 11 ++ body))
  unfolding zeros replicate
  with_count = set_byte-append [] (zeros 11 ++ body) 0 1 0 refl

  with_header : write_into ((1 ∷ []) ++ (zeros 11 ++ body)) 1 12 header ≡ ok ((1 ∷ header) ++ body)
  with_header =
      write_into-append (1 ∷ []) (zeros 11) body header 1 12 refl (omega (arith, length-zeros 11))
        (omega (arith, length-zeros 11))

-- The offsets of an instruction at `index`, whose message has `size` bytes.
abbrev pub offsets_of : (index size : ℕ) → SecpSignatureOffsets
offsets_of index size = record {
  signature_offset = 32;
  signature_instruction_index = index;
  eth_address_offset = 12;
  eth_address_instruction_index = index;
  message_data_offset = 97;
  message_data_size = size;
  message_instruction_index = index;
}

module _ (env : Env) (client : Client) (sizes : HasSizes client) where
  abbrev pub address_of : SecretKey → EthereumAddress
  address_of k = client.construct_eth_pubkey (client.from_secret_key k)

  abbrev pub signature_of : SecretKey → Bytes → Bytes
  signature_of k m = let (s, r) = client.sign (client.keccak256 m) k in s ++ r ∷ []

  -- The signature instruction of the key `k` for the message `m`, with the index `i`.
  abbrev pub secp_instruction : SecretKey → Bytes → ℕ → Instruction
  secp_instruction k m i = record {
    program_id = env.secp256k1_program_id;
    accounts = [];
    bytes =
        (1 ∷ client.serialize_offsets (offsets_of i (length m)))
        ++ (address_of k ++ (signature_of k m ++ m));
  }

  pub new_secp256k1_instruction_lem :
      (k : SecretKey) (m : Bytes) (i : ℕ)
      → length m < 2 ^ 16
      → new_secp256k1_instruction_2_0 env client k m i ≡ ok (secp_instruction k m i)
  unfolding new_secp256k1_instruction_2_0 ◌>>=◌ assert
  new_secp256k1_instruction_lem k m i small =
      let e = address_of k in
      let s = (client.sign (client.keccak256 m) k).0 in
      let r = (client.sign (client.keccak256 m) k).1 in
      let o = client.serialize_offsets (offsets_of i (length m)) in
      let es = sizes.address_size (client.from_secret_key k) in
      let ss = sizes.signature_size (client.keccak256 m) k in
      let os = sizes.offsets_size (offsets_of i (length m)) in
      let at_message : saturating_add 96 (length m) ≡ 96 + length m =
        saturating_add_lem 96 (length m) (omega arith) in
      let at_end : saturating_add (96 + length m) 1 ≡ 96 + length m + 1 =
        saturating_add_lem (96 + length m) 1 (omega arith) in
      let at_signature : saturating_add 12 20 ≡ 32 = saturating_add_lem 12 20 (omega arith) in
      let at_recovery : saturating_add 32 64 ≡ 96 = saturating_add_lem 32 64 (omega arith) in
      let after : saturating_add 96 1 ≡ 97 = saturating_add_lem 96 1 (omega arith) in
      let fits : length m % 2 ^ 16 ≡ length m = omega arith in
      rw (
        sizes.header_size,
        es,
        sizes.hash_size m,
        ss,
        sizes.serialized_size,
        at_signature,
        at_recovery,
        after,
        at_message,
        at_end,
        fits,
        blank_lem e s m o r es ss os,
        with_address e s m o r es ss os,
        with_signature e s m o r es ss os,
        with_recovery e s m o r es ss os,
        with_message e s m o r es ss os,
        with_count e s m o r es ss os,
        with_header e s m o r es ss os,
      )
