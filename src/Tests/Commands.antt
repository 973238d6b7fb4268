-- ===== src/Tests/Commands.antt =====
-- Commands of the concrete client.
use audius_reward_manager.Instructions.Builders
use audius_reward_manager.Cli.Buffer.{assert, copy_from_slice, saturating_add, set_byte, write_into}
use audius_reward_manager.Utils.Verify.{to_le_bytes}
use audius_reward_manager.Runtime.{update}
use audius_reward_manager.Prelude.{
  contains, ◌==◌, ◌≡◌, refl, [], ◌∷◌, some, Option, Bytes, length, replicate, take, drop, eqb,
  if◌then◌else◌,
}
use audius_reward_manager.Outcome.{return_if, Result, ok, panic, ◌>>=◌, map_err}
use audius_reward_manager.Cli.Client.{Error, program, Text}
use audius_reward_manager.Cli.Checks.{is_eth_address}
use audius_reward_manager.Cli.Transaction.{Config, OnchainTransaction, sign}
use audius_reward_manager.Cli.Commands.{Accounts, command_transfer}
use audius_reward_manager.Cli.Commands.Plan.{
  AccountsPlan, SigningPlan, SendingPlan, reward_of, command_transfer-eq_ok,
}
use audius_reward_manager.Cli.Main.{run, delete_sender}
use audius_reward_manager.Cli.Main.Addresses.{delete_sender-is_eth_address}
use audius_reward_manager.Tests.Chain.{chain}
use audius_reward_manager.Tests.Scene.{key, manager_key, sender_key, eth}
use audius_reward_manager.Tests.Desk.{client, client-ReadsHex, digits}

abbrev pub id : Bytes
id = 7 ∷ []

abbrev config : Config
config = record { owner = key 9; fee_payer = key 9 }

-- "0x" and 20 times "15"
abbrev pub address : Text
address = b'0' ∷ b'x' ∷ digits b'5' 20

delete_sender-is_eth_address_example :
    (d : Bytes) × (client.hex_decode (drop 2 address) ≡ ok d)
    × (run (chain []) client config id (key 1) (key 2) (delete_sender manager_key address) ≡ (
        if eqb (length address) 42
        then map_err program (Builders.delete_sender (chain []) id manager_key (key 9) (key 9) d)
          >>= (λ instruction.
              sign client config
                (record { instructions = instruction ∷ []; signers = key 9 ∷ key 9 ∷ [] })
                0)
        else panic))
unfolding is_eth_address ◌>>=◌ return_if ◌==◌ take drop
delete_sender-is_eth_address_example =
    delete_sender-is_eth_address client (chain []) config id (key 1) (key 2) client-ReadsHex
      manager_key address refl

abbrev send : Result Error (Option OnchainTransaction)
send =
    command_transfer (chain []) client config id manager_key (sender_key (eth 23)) (digits b'7' 32)
      [] (65 ∷ 66 ∷ []) (digits b'5' 20) 1000

abbrev pub transaction_of : Result Error (Option OnchainTransaction) → OnchainTransaction
transaction_of (ok (some tx)) = tx
transaction_of _ = record { instructions = []; payer = []; signers = []; recent_blockhash = [] }

sent : OnchainTransaction
unfolding command_transfer ◌>>=◌ map_err return_if replicate take drop assert copy_from_slice
    saturating_add to_le_bytes set_byte write_into
sent = transaction_of send

sends : send ≡ ok (some sent)
unfolding sent update ◌==◌ contains
sends = refl

command_transfer-eq_ok_example :
    (a : Accounts) × AccountsPlan
      (chain [])
      client
      config
      id
      manager_key
      (sender_key (eth 23))
      (digits b'5' 20)
      a
    × (s : SigningPlan
        (chain [])
        client
        config
        id
        (digits b'7' 32)
        []
        (reward_of (65 ∷ 66 ∷ []) 1000 a)
        a)
    × SendingPlan
        (chain [])
        client
        config
        id
        manager_key
        (sender_key (eth 23))
        (reward_of (65 ∷ 66 ∷ []) 1000 a)
        a
        s
        sent
command_transfer-eq_ok_example =
    command_transfer-eq_ok (chain []) client config id manager_key (sender_key (eth 23))
      (digits b'7' 32) [] (65 ∷ 66 ∷ []) (digits b'5' 20) 1000 sends
