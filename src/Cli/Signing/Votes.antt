-- ===== src/Cli/Signing/Votes.antt =====
-- What the client signs passes the vote on the chain.
use audius_reward_manager.Prelude.{
  Bool-cases, inl, inr, ℕ, ◌+◌, ◌<◌, ◌≤◌, ◌≡◌, ◌^◌, refl, sym, subst, ap, ◌∙◌, List, [], ◌∷◌, ◌++◌,
  map, append-nil, Bytes, ==_refl, contains, ◌==◌, length, arith, false,
}
use audius_reward_manager.Prelude.Predicates.{IsDistinct}
use audius_reward_manager.Outcome.{ok, ok-injective}
use audius_reward_manager.State.{Pubkey, EthereumAddress, SenderAccount}
use audius_reward_manager.Instructions.{Transfer}
use audius_reward_manager.Runtime.{AccountInfo, Instruction, Ledger, Env}
use audius_reward_manager.Utils.Secp.Complete.{secp_only}
use audius_reward_manager.Utils.Secp.Reading.{Attests}
use audius_reward_manager.Utils.Verify.{
  bot_oracle_message, senders_message, add_sender_message, build_verify_secp_transfer,
  build_verify_secp_add_sender,
}
use audius_reward_manager.Utils.Verify.Ballots.{Ballots, Within-self}
use audius_reward_manager.Utils.Verify.Honest.{
  build_verify_secp_add_sender-Ballots, build_verify_secp_transfer-Ballots,
}
use audius_reward_manager.Processor.Votes.{check_secp_signs}
use audius_reward_manager.Processor.Votes.Accepts.{Election, check_secp_signs-Election}
use audius_reward_manager.Cli.Client.{SecretKey, Client, HasSizes}
use audius_reward_manager.Cli.Signing.{new_secp256k1_instruction_2_0, sign_message}
use audius_reward_manager.Cli.Signing.Layout.{secp_instruction, new_secp256k1_instruction_lem}
use audius_reward_manager.Cli.Signing.Reading.{
  secp_instruction-Attests, signed_from, sign_message_lem,
}

module _ (env : Env) (client : Client) (sizes : HasSizes client) where
  -- The Ethereum addresses of secret keys.
  abbrev pub addresses_of_keys : List SecretKey → List EthereumAddress
  addresses_of_keys ks =
      map (λ (k : SecretKey). client.construct_eth_pubkey (client.from_secret_key k)) ks

  signed_from-Ballots :
      (i : ℕ) (m : Bytes) (ks : List SecretKey)
      → Ballots (addresses_of_keys ks) m (signed_from env client sizes i m ks)
  signed_from-Ballots i m [] = tt
  signed_from-Ballots i m (k ∷ ks) =
      (secp_instruction-Attests env client sizes k m i, signed_from-Ballots (i + 1) m ks)

  secp_only-signed_from :
      (sysvar : Bytes) (i : ℕ) (m : Bytes) (ks : List SecretKey)
      → secp_only env sysvar (signed_from env client sizes i m ks)
        ≡ signed_from env client sizes i m ks
  secp_only-signed_from sysvar i m [] = refl
  secp_only-signed_from sysvar i m (k ∷ ks) = rw (==_refl env.secp256k1_program_id) (
      ap (λ (l : List Instruction). secp_instruction env client sizes k m i ∷ l)
        (secp_only-signed_from sysvar (i + 1) m ks))

  secp_only-append :
      (sysvar : Bytes) (front back : List Instruction)
      → secp_only env sysvar (front ++ back)
        ≡ secp_only env sysvar front ++ secp_only env sysvar back
  secp_only-append sysvar [] back = refl
  secp_only-append sysvar (ix ∷ front) back =
      elim (Bool-cases (ix.program_id == env.secp256k1_program_id)) [
        | inl secp ↦
            rw secp (ap (λ (l : List Instruction). ix ∷ l) (secp_only-append sysvar front back))
        | inr other ↦ rw other (secp_only-append sysvar front back)
      ]

  module _ (program_id : Pubkey) (reward_manager_info instruction_info : AccountInfo)
      (signers : List AccountInfo) (w : Ledger) where
    -- The vote for a new sender passes. Where the message has less than 2^16 bytes and there are at
    -- most 256 keys: if the signature instructions that `sign_message` makes for `AddSender` stand
    -- right before it, and the keys are those of at least `min_votes` genuine senders with different
    -- addresses and operators, the accounts in the order of the keys, then `check_secp_signs` accepts.
    pub sign_message-add_sender :
        (new_sender : EthereumAddress) (keys : List SecretKey) (operators : List EthereumAddress)
        {ixs : List Instruction}
        → length (reward_manager_info.key ++ new_sender) < 2 ^ 16
        → length keys ≤ 256
        → sign_message env client (reward_manager_info.key ++ new_sender) keys ≡ ok ixs
        → Election env program_id reward_manager_info instruction_info signers
            (length signers)
            (build_verify_secp_add_sender reward_manager_info.key new_sender)
            w
            ixs
            (addresses_of_keys keys)
            operators
        → check_secp_signs env program_id reward_manager_info instruction_info signers
            (length signers)
            (build_verify_secp_add_sender reward_manager_info.key new_sender)
            w
          ≡ ok tt
    unfolding add_sender_message
    sign_message-add_sender new_sender keys operators {ixs} small few signed e =
        let m = reward_manager_info.key ++ new_sender in
        let sysvar = (w instruction_info.key).bytes in
        let same : ixs ≡ signed_from env client sizes 0 m keys =
          ok-injective (sym signed ∙ sign_message_lem env client sizes m keys small few) in
        let only : secp_only env sysvar ixs ≡ signed_from env client sizes 0 m keys =
          ap (secp_only env sysvar) same ∙ secp_only-signed_from sysvar 0 m keys in
        check_secp_signs-Election env program_id reward_manager_info instruction_info signers
          (length signers) (build_verify_secp_add_sender reward_manager_info.key new_sender) w e
        ∙ rw only (
            build_verify_secp_add_sender-Ballots reward_manager_info.key new_sender
              (addresses_of_keys keys) (addresses_of_keys keys) operators
              (signed_from env client sizes 0 m keys) (signed_from-Ballots 0 m keys)
              e.electorate.distinct_addresses (Within-self (addresses_of_keys keys)))

    -- The vote for a transfer passes. Where the messages have less than 2^16 bytes and there are at
    -- most 256 keys: if before `Transfer` stand other instructions, then those that `sign_message`
    -- makes for the senders' message, then the oracle's for its own, with any index; if the keys are
    -- those of at least `min_votes` genuine senders with different addresses and operators, the
    -- accounts in the order of the keys; and if the oracle is none of them and its operator none of
    -- theirs, then `check_secp_signs` accepts.
    pub sign_message-transfer :
        (oracle : SenderAccount) (t : Transfer) (keys : List SecretKey) (oracle_key : SecretKey)
        (index : ℕ) (operators : List EthereumAddress) (first : List Instruction)
        {ixs : List Instruction} {oracle_ix : Instruction}
        → length (senders_message t oracle.eth_address) < 2 ^ 16
        → length (bot_oracle_message t) < 2 ^ 16
        → length keys ≤ 256
        → client.construct_eth_pubkey (client.from_secret_key oracle_key) ≡ oracle.eth_address
        → contains (addresses_of_keys keys) oracle.eth_address ≡ false
        → contains operators oracle.operator ≡ false
        → secp_only env (w instruction_info.key).bytes first ≡ []
        → sign_message env client (senders_message t oracle.eth_address) keys ≡ ok ixs
        → new_secp256k1_instruction_2_0 env client oracle_key (bot_oracle_message t) index
          ≡ ok oracle_ix
        → Election env program_id reward_manager_info instruction_info signers
            (length signers + 1)
            (build_verify_secp_transfer oracle t)
            w
            (first ++ (ixs ++ oracle_ix ∷ []))
            (addresses_of_keys keys)
            operators
        → check_secp_signs env program_id reward_manager_info instruction_info signers
            (length signers + 1)
            (build_verify_secp_transfer oracle t)
            w
          ≡ ok tt
    sign_message-transfer oracle t keys oracle_key index operators first {ixs} {oracle_ix} small
          small' few its_key stranger free foreign signed oracle_signed e =
        let m = senders_message t oracle.eth_address in
        let sysvar = (w instruction_info.key).bytes in
        let votes = signed_from env client sizes 0 m keys in
        let last = secp_instruction env client sizes oracle_key (bot_oracle_message t) index in
        let same : ixs ≡ votes =
          ok-injective (sym signed ∙ sign_message_lem env client sizes m keys small few) in
        let same' : oracle_ix ≡ last = ok-injective (
          sym oracle_signed
          ∙ new_secp256k1_instruction_lem env client sizes oracle_key (bot_oracle_message t) index
              small') in
        let only : secp_only env sysvar (first ++ (ixs ++ oracle_ix ∷ [])) ≡ votes ++ last ∷ [] =
          secp_only-append sysvar first (ixs ++ oracle_ix ∷ [])
          ∙ rw (foreign, same, same')
              (secp_only-append sysvar votes (last ∷ [])
                ∙ rw (secp_only-signed_from sysvar 0 m keys, ==_refl env.secp256k1_program_id)) in
        let attests : Attests oracle.eth_address (bot_oracle_message t) last.bytes =
          subst (λ (a : EthereumAddress). Attests a (bot_oracle_message t) last.bytes) its_key
            (secp_instruction-Attests env client sizes oracle_key (bot_oracle_message t) index) in
        check_secp_signs-Election env program_id reward_manager_info instruction_info signers
          (length signers + 1) (build_verify_secp_transfer oracle t) w e
        ∙ rw only (
            build_verify_secp_transfer-Ballots oracle t (addresses_of_keys keys) stranger
              (addresses_of_keys keys) [] operators votes [] last (signed_from-Ballots 0 m keys) tt
              attests
              (subst IsDistinct (sym (append-nil (addresses_of_keys keys)))
                e.electorate.distinct_addresses)
              (Within-self (addresses_of_keys keys)) tt (omega arith) free)
