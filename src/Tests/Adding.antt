-- ===== src/Tests/Adding.antt =====
-- A transaction of the concrete client that adds a sender on the concrete chain.
use audius_reward_manager.Prelude.{
  contains, ◌==◌, false, ◌≡◌, refl, [], ◌∷◌, ◌++◌, some, Option, replicate, take, drop, arith,
}
use audius_reward_manager.Outcome.{Result, ok, ◌>>=◌, map_err, return_if}
use audius_reward_manager.Error.{ProgramError}
use audius_reward_manager.Runtime.{Instruction}
use audius_reward_manager.Instructions.Builders.{add_sender, readonly}
use audius_reward_manager.Instructions.Builders.Agreement.{account_info, accounts_of}
use audius_reward_manager.Utils.Address.{get_address_pair}
use audius_reward_manager.Utils.Senders.Genuine.{Electorate, get_eth_addresses-eq_ok}
use audius_reward_manager.Utils.Verify.{add_sender_message, build_verify_secp_add_sender}
use audius_reward_manager.Processor.Votes.Accepts.{Election}
use audius_reward_manager.Cli.Buffer.{assert, copy_from_slice, saturating_add, set_byte, write_into}
use audius_reward_manager.Cli.Client.{Error}
use audius_reward_manager.Cli.Transaction.{Config, OnchainTransaction}
use audius_reward_manager.Cli.Signing.{new_secp256k1_instruction_2_0}
use audius_reward_manager.Cli.Commands.{read_keys, expect, command_add_sender}
use audius_reward_manager.Cli.Commands.Adding.{AddingPlan, command_add_sender-eq_ok}
use audius_reward_manager.Tests.Chain.{chain, program}
use audius_reward_manager.Tests.Scene.{key, eth, manager_key, sender_key, ledger, value}
use audius_reward_manager.Tests.Desk.{client, digits}
use audius_reward_manager.Tests.Honest.{addresses, operators, keys, voted, casts}
use audius_reward_manager.Tests.Building.{voters}
use audius_reward_manager.Tests.Commands.{transaction_of}

abbrev config : Config
config = record { owner = key 9; fee_payer = key 9 }

-- The new sender 24 with the operator 25.
abbrev send : Result Error (Option OnchainTransaction)
send =
    command_add_sender (chain voted) client config program manager_key (digits b'8' 20)
      (digits b'9' 20) []

sent : OnchainTransaction
unfolding command_add_sender ◌>>=◌ map_err return_if replicate take drop assert copy_from_slice
    saturating_add set_byte write_into
sent = transaction_of send

sends : send ≡ ok (some sent)
unfolding sent new_secp256k1_instruction_2_0 contains ◌==◌
sends = refl

command_add_sender-eq_ok_example :
    AddingPlan
      (chain voted)
      client
      config
      program
      manager_key
      (digits b'8' 20)
      (digits b'9' 20)
      []
      sent
command_add_sender-eq_ok_example =
    command_add_sender-eq_ok (chain voted) client config program manager_key (digits b'8' 20)
      (digits b'9' 20) [] sends

abbrev built : Result ProgramError Instruction
built = add_sender (chain voted) program manager_key (key 9) (eth 24) (eth 25) voters

abbrev instruction_of : Result ProgramError Instruction → Instruction
instruction_of (ok ix) = ix
instruction_of _ = record { program_id = []; accounts = []; bytes = [] }

last : Instruction
unfolding add_sender get_address_pair ◌>>=◌ map_err
last = instruction_of built

last_lem : built ≡ ok last
unfolding last
last_lem = refl

abbrev transaction : OnchainTransaction
transaction = record {
  instructions = voted ++ last ∷ [];
  payer = key 9;
  signers = key 9 ∷ key 9 ∷ [];
  recent_blockhash = [];
}

plan :
    AddingPlan
      (chain voted)
      client
      config
      program
      manager_key
      (digits b'8' 20)
      (digits b'9' 20)
      []
      transaction
unfolding read_keys expect ◌>>=◌ replicate add_sender_message
plan = record {
  rows =
      ok (record { solana_key = sender_key (eth 21); eth_secret = digits b'5' 32 })
      ∷ ok (record { solana_key = sender_key (eth 22); eth_secret = digits b'6' 32 })
      ∷ [];
  rows_read = refl;
  sender = eth 24;
  sender_decoded = refl;
  operator = eth 25;
  operator_decoded = refl;
  senders = voters;
  secrets = keys;
  keys_read = refl;
  signed = voted;
  signed_lem = casts;
  last = last;
  built = last_lem;
  instructions_lem = refl;
  signers_lem = refl;
  payer_lem = refl;
}

electorate :
    Electorate (chain voted) program manager_key ledger (accounts_of voters) addresses operators
unfolding value
electorate =
    get_eth_addresses-eq_ok (chain voted) program manager_key ledger (accounts_of voters) refl

election :
    Election
      (chain voted)
      program
      (account_info (readonly manager_key false))
      (account_info (readonly (5 ∷ []) false))
      (accounts_of voters)
      2
      (build_verify_secp_add_sender manager_key (eth 24))
      ledger
      voted
      addresses
      operators
unfolding value
election = record {
  reward_manager = record { version = 1; token_account = key 40; manager = key 11; min_votes = 2 };
  decoded = refl;
  enough = omega arith;
  listed = (refl, (refl, tt));
  current = refl;
  some_before = omega arith;
  count = refl;
  electorate = electorate;
}
