-- ===== src/Tests/Scene.antt =====
-- A reward manager with two senders and an oracle on the concrete chain, and what they sign.
use audius_reward_manager.Prelude.{
  ℕ, ◌+◌, List, [], ◌∷◌, ◌++◌, true, Bytes, ◌==◌, take, drop, replicate, get_elem?, contains,
  set_insert, lookup, insert,
}
use audius_reward_manager.Outcome.{Result, ok, err, panic, ◌>>=◌, return_if, map_err}
use audius_reward_manager.Error.{ProgramError}
use audius_reward_manager.State.{Pubkey, EthereumAddress, SenderAccount, new_sender_account}
use audius_reward_manager.Instructions.{Transfer}
use audius_reward_manager.Consts.{sender_seed_prefix, transfer_seed_prefix}
use audius_reward_manager.Runtime.{Account, AccountInfo, Instruction, Ledger, update}
use audius_reward_manager.Utils.Secp.{
  get_secp_instructions, get_signer_from_secp_instruction, validate_eth_signature,
}
use audius_reward_manager.Utils.Senders.{get_eth_addresses}
use audius_reward_manager.Utils.Checkmap.{vec_into_checkmap, check_signer}
use audius_reward_manager.Utils.Cpi.{token_transfer, create_account_with_seed}
use audius_reward_manager.Utils.Verify.{
  to_le_bytes, bot_oracle_message, senders_message, add_sender_message, oracle_step, sender_step,
  build_verify_secp_transfer, build_verify_secp_add_sender,
}
use audius_reward_manager.Processor.Accounts.{write_data, transfer_all}
use audius_reward_manager.Processor.Votes.{check_secp_signs}
use audius_reward_manager.Processor.Payout.{process_transfer}
use audius_reward_manager.Processor.Senders.{
  process_add_sender, process_create_sender, process_delete_sender,
}
use audius_reward_manager.Tests.Chain.{program, encode_sender, encode_manager}

abbrev pub key : ℕ → Pubkey
key n = replicate 32 n

abbrev pub eth : ℕ → EthereumAddress
eth n = replicate 20 n

abbrev pub info : Pubkey → AccountInfo
info k = record { key = k; is_signer = true; is_writable = true }

abbrev pub manager_key : Pubkey
manager_key = key 10

abbrev pub sender_key : EthereumAddress → Pubkey
sender_key e = (255 ∷ manager_key) ++ (sender_seed_prefix ++ e)

-- A sender's Ethereum address and operator are named by a number.
abbrev pub sender : ℕ → SenderAccount
sender n = record {
  version = 1;
  reward_manager = manager_key;
  eth_address = eth n;
  operator = eth (n + 100);
}

abbrev account : Bytes → Account
account d = record { lamports = 5; bytes = d; owner = program }

abbrev sender_account : ℕ → Ledger → Ledger
sender_account n w = update w (sender_key (eth n)) (account (encode_sender (sender n)))

abbrev vault_key : Pubkey
vault_key = key 40

abbrev pub ledger : Ledger
ledger =
    let blank : Ledger = λ _. record { lamports = 0; bytes = []; owner = 4 ∷ [] } in
    let w = update blank manager_key (
      account (
        encode_manager
          (record { version = 1; token_account = vault_key; manager = key 11; min_votes = 2 }))) in
    let w' = update w vault_key (record { lamports = 5; bytes = 50 ∷ []; owner = 2 ∷ [] }) in
    sender_account 21 (sender_account 22 (sender_account 23 w'))

abbrev pub signature : EthereumAddress → Bytes → Instruction
signature e m = record {
  program_id = 1 ∷ [];
  accounts = [];
  bytes = replicate 12 0 ++ (e ++ (replicate 65 0 ++ m));
}

abbrev pub reward : Transfer
reward = record { amount = 1000; id = 65 ∷ 66 ∷ []; eth_recipient = eth 60 }

abbrev pub votes : List Instruction
votes =
    signature (eth 22) (senders_message reward (eth 23))
    ∷ signature (eth 23) (bot_oracle_message reward)
    ∷ signature (eth 21) (senders_message reward (eth 23))
    ∷ []

abbrev pub base : AccountInfo
base = info (255 ∷ manager_key)

abbrev pub recipient : AccountInfo
recipient = info (3 ∷ 50 ∷ eth 60)

abbrev pub vault : AccountInfo
vault = info vault_key

abbrev pub oracle : AccountInfo
oracle = info (sender_key (eth 23))

abbrev pub payout_record : AccountInfo
payout_record = info ((255 ∷ manager_key) ++ (transfer_seed_prefix ++ reward.id))

abbrev pub signers : List AccountInfo
signers = info (sender_key (eth 21)) ∷ info (sender_key (eth 22)) ∷ []

-- The message for a new sender, signed by both senders.
abbrev pub consents : List Instruction
consents =
    let m = add_sender_message manager_key (eth 24) in
    signature (eth 21) m ∷ signature (eth 22) m ∷ []

-- The ledger that a run ends with; its line names what a run on the chain computes with.
unfoldable pub value : Result ProgramError Ledger → Ledger
unfolding process_transfer process_add_sender process_create_sender process_delete_sender
    check_secp_signs get_secp_instructions get_eth_addresses build_verify_secp_transfer
    build_verify_secp_add_sender oracle_step sender_step vec_into_checkmap check_signer
    token_transfer create_account_with_seed get_signer_from_secp_instruction validate_eth_signature
    new_sender_account ◌>>=◌ return_if map_err ◌==◌ take drop replicate get_elem? contains
    set_insert lookup insert update to_le_bytes bot_oracle_message senders_message
    add_sender_message write_data transfer_all
value (ok w) = w
value (err e) = ledger
value panic = ledger
