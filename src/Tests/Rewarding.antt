-- ===== src/Tests/Rewarding.antt =====
-- A transaction of the concrete client for a reward, and the honest vote in it.
use audius_reward_manager.Cli.Buffer.{assert, copy_from_slice, saturating_add, set_byte, write_into}
use audius_reward_manager.Utils.Verify.{to_le_bytes}
use audius_reward_manager.Runtime.{update}
use audius_reward_manager.Cli.Client.{Error, Text}
use audius_reward_manager.Tests.Commands.{transaction_of}
use audius_reward_manager.Prelude.{
  take, drop, contains, some, Option, ◌==◌, ◌≡◌, refl, [], ◌∷◌, replicate, arith,
}
use audius_reward_manager.Outcome.{Result, ok, return_if, ◌>>=◌, map_err}
use audius_reward_manager.Instructions.Builders.Agreement.{accounts_of}
use audius_reward_manager.Utils.Senders.Genuine.{Electorate, get_eth_addresses-eq_ok}
use audius_reward_manager.Cli.Transaction.{Config, OnchainTransaction}
use audius_reward_manager.Cli.Commands.{
  Accounts, read_keys, expect, read_accounts, create_recipient, command_transfer,
}
use audius_reward_manager.Cli.Commands.Plan.{SigningPlan, reward_of}
use audius_reward_manager.Cli.Commands.Payment.{IsHonest}
use audius_reward_manager.Tests.Chain.{chain, program}
use audius_reward_manager.Tests.Scene.{
  key, eth, manager_key, sender_key, sender, ledger, reward, recipient, oracle, value,
}
use audius_reward_manager.Tests.Desk.{client, client-HasSizes, digits, pairs}
use audius_reward_manager.Tests.Honest.{
  addresses, operators, keys, creates, ballots, oracle_ballot, before, ballots_lem,
  oracle_ballot_lem,
}
use audius_reward_manager.Tests.Building.{voters}

abbrev pub config : Config
config = record { owner = key 9; fee_payer = key 9 }

abbrev pub recipient_text : Text
recipient_text = pairs b'3' b'c' 20

abbrev pub accounts : Accounts
accounts = record {
  reward_manager_data = record {
    version = 1;
    token_account = key 40;
    manager = key 11;
    min_votes = 2;
  };
  bot_oracle_data = sender 23;
  decoded_recipient_address = eth 60;
  claimable_token_acc = recipient.key;
  instructions = creates ∷ [];
}

-- The cluster has no account of the recipient yet.
pub finds :
    read_accounts (chain before) client config program manager_key oracle.key recipient_text
    ≡ ok accounts
unfolding read_accounts expect create_recipient ◌>>=◌ map_err update ◌==◌ replicate take drop
finds = refl

abbrev send : Result Error (Option OnchainTransaction)
send =
    command_transfer (chain before) client config program manager_key oracle.key (digits b'7' 32) []
      reward.id recipient_text 1000

pub transaction : OnchainTransaction
unfolding command_transfer ◌>>=◌ map_err return_if replicate take drop assert copy_from_slice
    saturating_add to_le_bytes set_byte write_into update ◌==◌ contains
transaction = transaction_of send

pub sends : send ≡ ok (some transaction)
unfolding transaction
sends = refl

abbrev Plan : Type 0
Plan =
    SigningPlan (chain before) client config program (digits b'7' 32) []
      (reward_of reward.id 1000 accounts) accounts

unfoldable pub plan : Plan
unfolding read_keys expect ◌>>=◌ replicate
plan = record {
  rows =
      ok (record { solana_key = sender_key (eth 21); eth_secret = digits b'5' 32 })
      ∷ ok (record { solana_key = sender_key (eth 22); eth_secret = digits b'6' 32 })
      ∷ [];
  rows_read = refl;
  senders = voters;
  secrets = keys;
  keys_read = refl;
  signed = ballots;
  signed_lem = ballots_lem;
  secret_bytes = key 23;
  secret_decoded = refl;
  oracle_secret = key 23;
  secret_parsed = refl;
  oracle_signed = oracle_ballot;
  oracle_signed_lem = oracle_ballot_lem;
}

electorate :
    Electorate (chain before) program manager_key ledger (accounts_of voters) addresses operators
unfolding value
electorate =
    get_eth_addresses-eq_ok (chain before) program manager_key ledger (accounts_of voters) refl

pub honest :
    IsHonest
      (chain before)
      client
      client-HasSizes
      config
      program
      manager_key
      oracle.key
      accounts
      ledger
      plan
unfolding value plan
honest = record {
  senders_message_fits = omega arith;
  oracle_message_fits = omega arith;
  few = omega arith;
  oracle_key = refl;
  stranger = refl;
  foreign = refl;
  operators = operators;
  apart = refl;
  election = record {
    reward_manager = record {
      version = 1;
      token_account = key 40;
      manager = key 11;
      min_votes = 2;
    };
    decoded = refl;
    enough = omega arith;
    listed = (refl, (refl, (refl, (refl, tt))));
    current = refl;
    some_before = omega arith;
    count = refl;
    electorate = electorate;
  };
}
