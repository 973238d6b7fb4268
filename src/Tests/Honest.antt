-- ===== src/Tests/Honest.antt =====
-- Honest votes on the concrete chain.
use audius_reward_manager.Prelude.{
  ◌≡◌, refl, List, [], ◌∷◌, ◌++◌, Bytes, length, replicate, get_elem?, eqb, arith, false, contains,
  ◌==◌, if◌then◌else◌,
}
use audius_reward_manager.Outcome.{ok, err}
use audius_reward_manager.Error.{secp256_instruction_missing}
use audius_reward_manager.Runtime.{Instruction}
use audius_reward_manager.Utils.Secp.{get_secp_instructions}
use audius_reward_manager.Utils.Secp.Complete.{secp_only, get_secp_instructions_lem}
use audius_reward_manager.Utils.Senders.Genuine.{Electorate, get_eth_addresses-eq_ok}
use audius_reward_manager.Utils.Verify.{
  to_le_bytes, senders_message, bot_oracle_message, build_verify_secp_transfer,
  build_verify_secp_add_sender,
}
use mathlib.Core.Logic.{◌↔◌}
use audius_reward_manager.Utils.Senders.Complete.{get_eth_addresses_iff}
use audius_reward_manager.Utils.Senders.{get_eth_addresses}
use audius_reward_manager.Utils.Verify.Exact.Payouts.{IsVote, build_verify_secp_transfer_iff}
use mathlib.Mathlib.Data.Multiset.Defs.{of_list}
use audius_reward_manager.Utils.Verify.Exact.Box.{IsElected, build_verify_secp_add_sender-IsElected}
use audius_reward_manager.Utils.Verify.Apart.{build_verify_secp_transfer_apart}
use audius_reward_manager.Processor.Votes.{check_secp_signs}
use audius_reward_manager.Processor.Votes.Accepts.{Election}
use audius_reward_manager.Cli.Signing.{new_secp256k1_instruction_2_0, sign_message}
use audius_reward_manager.Cli.Signing.Reading.{signed_from, sign_message_lem}
use audius_reward_manager.Cli.Signing.Layout.{secp_instruction, new_secp256k1_instruction_lem}
use audius_reward_manager.Cli.Signing.Votes.{sign_message-add_sender, sign_message-transfer}
use audius_reward_manager.Tests.Chain.{chain, program}
use audius_reward_manager.Tests.Scene.{
  consents, key, eth, info, manager_key, sender, ledger, reward, votes, base, signers, value,
}
use audius_reward_manager.Tests.Desk.{client, client-HasSizes}

abbrev pub addresses : List Bytes
addresses = eth 21 ∷ eth 22 ∷ []

abbrev pub operators : List Bytes
operators = eth 122 ∷ eth 121 ∷ []

build_verify_secp_add_sender-IsElected_example :
    (build_verify_secp_add_sender manager_key (eth 24) consents addresses operators ≡ ok tt)
    ↔ IsElected manager_key (eth 24) addresses (of_list consents)
build_verify_secp_add_sender-IsElected_example =
    build_verify_secp_add_sender-IsElected manager_key (eth 24) addresses operators consents

build_verify_secp_transfer_iff_example :
    (build_verify_secp_transfer (sender 23) reward votes addresses operators ≡ ok tt)
    ↔ IsVote (sender 23) reward addresses operators votes
build_verify_secp_transfer_iff_example =
    build_verify_secp_transfer_iff (sender 23) reward addresses operators votes refl

accepts : build_verify_secp_transfer (sender 23) reward votes addresses operators ≡ ok tt
unfolding value
accepts = refl

build_verify_secp_transfer_apart_example : contains addresses (eth 23) ≡ false
build_verify_secp_transfer_apart_example =
    build_verify_secp_transfer_apart (sender 23) reward votes addresses operators accepts

get_secp_instructions_lem_example : get_secp_instructions (chain votes) [] 3 3 ≡ (
    if eqb (length (secp_only (chain votes) [] votes)) 3
    then ok (secp_only (chain votes) [] votes)
    else err secp256_instruction_missing)
unfolding get_elem?
get_secp_instructions_lem_example =
    get_secp_instructions_lem (chain votes) [] votes 3 (refl, (refl, (refl, tt)))

electorate :
    (before : List Instruction)
    → Electorate (chain before) program manager_key ledger signers addresses operators
unfolding value
electorate before = get_eth_addresses-eq_ok (chain before) program manager_key ledger signers refl

get_eth_addresses_iff_example :
    (get_eth_addresses (chain []) program manager_key ledger signers ≡ ok (addresses, operators))
    ↔ Electorate (chain []) program manager_key ledger signers addresses operators
get_eth_addresses_iff_example =
    get_eth_addresses_iff (chain []) program manager_key ledger signers addresses operators

abbrev pub keys : List Bytes
keys = key 21 ∷ key 22 ∷ []

-- What the client signs for the new sender 24.
abbrev pub vote : Bytes
vote = manager_key ++ eth 24

abbrev pub voted : List Instruction
voted = signed_from (chain []) client client-HasSizes 0 vote keys

pub casts : sign_message (chain voted) client vote keys ≡ ok voted
unfolding replicate
casts = sign_message_lem (chain voted) client client-HasSizes vote keys (omega arith) (omega arith)

election :
    Election
      (chain voted)
      program
      (info manager_key)
      base
      signers
      2
      (build_verify_secp_add_sender manager_key (eth 24))
      ledger
      voted
      addresses
      operators
unfolding value
election = record {
  reward_manager = record { version = 1; token_account = key 40; manager = key 11; min_votes = 2 };
  decoded = refl;
  enough = omega arith;
  listed = (refl, (refl, tt));
  current = refl;
  some_before = omega arith;
  count = refl;
  electorate = electorate voted;
}

sign_message-add_sender_example :
    check_secp_signs
      (chain voted)
      program
      (info manager_key)
      base
      signers
      2
      (build_verify_secp_add_sender manager_key (eth 24))
      ledger
    ≡ ok tt
unfolding replicate
sign_message-add_sender_example =
    sign_message-add_sender (chain voted) client client-HasSizes program (info manager_key) base
      signers ledger (eth 24) keys operators (omega arith) (omega arith) casts election

-- What the client signs for the reward, behind an instruction that creates the recipient's account.
abbrev pub creates : Instruction
creates = record { program_id = 3 ∷ []; accounts = []; bytes = [] }

abbrev pub ballots : List Instruction
ballots = signed_from (chain []) client client-HasSizes 0 (senders_message reward (eth 23)) keys

abbrev pub oracle_ballot : Instruction
oracle_ballot =
    secp_instruction (chain []) client client-HasSizes (key 23) (bot_oracle_message reward) 3

abbrev pub before : List Instruction
before = creates ∷ (ballots ++ oracle_ballot ∷ [])

pub ballots_lem :
    sign_message (chain before) client (senders_message reward (eth 23)) keys ≡ ok ballots
unfolding senders_message to_le_bytes replicate
ballots_lem =
    sign_message_lem (chain before) client client-HasSizes (senders_message reward (eth 23)) keys
      (omega arith) (omega arith)

pub oracle_ballot_lem :
    new_secp256k1_instruction_2_0 (chain before) client (key 23) (bot_oracle_message reward) 3
    ≡ ok oracle_ballot
unfolding bot_oracle_message to_le_bytes replicate
oracle_ballot_lem =
    new_secp256k1_instruction_lem (chain before) client client-HasSizes (key 23)
      (bot_oracle_message reward) 3 (omega arith)

reward-Election :
    Election
      (chain before)
      program
      (info manager_key)
      base
      signers
      3
      (build_verify_secp_transfer (sender 23) reward)
      ledger
      before
      addresses
      operators
unfolding value
reward-Election = record {
  reward_manager = record { version = 1; token_account = key 40; manager = key 11; min_votes = 2 };
  decoded = refl;
  enough = omega arith;
  listed = (refl, (refl, (refl, (refl, tt))));
  current = refl;
  some_before = omega arith;
  count = refl;
  electorate = electorate before;
}

sign_message-transfer_example :
    check_secp_signs
      (chain before)
      program
      (info manager_key)
      base
      signers
      3
      (build_verify_secp_transfer (sender 23) reward)
      ledger
    ≡ ok tt
unfolding replicate contains ◌==◌ senders_message bot_oracle_message to_le_bytes
sign_message-transfer_example =
    sign_message-transfer (chain before) client client-HasSizes program (info manager_key) base
      signers ledger (sender 23) reward keys (key 23) 3 operators (creates ∷ []) (omega arith)
      (omega arith) (omega arith) refl refl refl refl ballots_lem oracle_ballot_lem reward-Election
