-- ===== src/Tests/Signatures.antt =====
-- Verifiers, messages and signature instructions at concrete data.
use audius_reward_manager.Prelude.{
  ◌≡◌, ◌≢◌, refl, [], ◌∷◌, ◌++◌, some, some, replicate, length-replicate, get_elem?, arith,
  contains, false, ◌==◌, if◌then◌else◌, List, Bytes,
}
use audius_reward_manager.Outcome.{ok, err}
use audius_reward_manager.Error.{from, signature_verification_failed}
use audius_reward_manager.Utils.Secp.{get_signer_from_secp_instruction, validate_eth_signature}
use audius_reward_manager.Utils.Secp.Reading.{SomeAttests}
use audius_reward_manager.Utils.Secp.Layout.{secp_reads_lem}
use audius_reward_manager.Utils.Verify.{
  bot_oracle_message, senders_message, add_sender_message, build_verify_secp_transfer,
}
use audius_reward_manager.Utils.Verify.Sound.{AllAttest, build_verify_secp_transfer_sound}
use audius_reward_manager.Utils.Verify.Messages.{IsTyped}
use audius_reward_manager.Utils.Verify.Separation.{add_sender_message-ne}
use audius_reward_manager.Tests.Scene.{eth, manager_key, sender, reward, votes, value}

abbrev addresses : List Bytes
addresses = eth 21 ∷ eth 22 ∷ []

accepts_transfer :
    build_verify_secp_transfer (sender 23) reward votes addresses (eth 122 ∷ eth 121 ∷ []) ≡ ok tt
unfolding value
accepts_transfer = refl

build_verify_secp_transfer_sound_example :
    AllAttest addresses (senders_message reward (eth 23)) votes
    × SomeAttests (eth 23) (bot_oracle_message reward) votes
    × (contains (eth 122 ∷ eth 121 ∷ []) (eth 123) ≡ false)
build_verify_secp_transfer_sound_example =
    build_verify_secp_transfer_sound (sender 23) reward votes addresses (eth 122 ∷ eth 121 ∷ [])
      accepts_transfer

reward-IsTyped : IsTyped reward
reward-IsTyped = record { recipient_size = length-replicate 20 60; amount_fits = omega arith }

key_byte : get_elem? manager_key 20 ≢ some b'_'
unfolding replicate get_elem?
key_byte h = absurd (ground arith)

add_sender_message-ne_example :
    (add_sender_message manager_key (eth 24) ≢ bot_oracle_message reward)
    × (add_sender_message manager_key (eth 24) ≢ senders_message reward (eth 23))
add_sender_message-ne_example =
    add_sender_message-ne manager_key (eth 24) (eth 23) reward (length-replicate 32 10)
      reward-IsTyped key_byte

secp_reads_lem_example :
    let d = replicate 12 9 ++ (eth 21 ++ (replicate 65 7 ++ 1 ∷ [])) in
    (get_signer_from_secp_instruction d ≡ ok (eth 21))
    × (validate_eth_signature (2 ∷ []) d
        ≡ (if (1 ∷ []) == (2 ∷ []) then ok tt else err (from signature_verification_failed)))
secp_reads_lem_example =
    secp_reads_lem (replicate 12 9) (eth 21) (replicate 65 7) (1 ∷ []) (length-replicate 12 9)
      (length-replicate 20 21) (length-replicate 65 7) (2 ∷ [])
