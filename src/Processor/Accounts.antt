-- ===== src/Processor/Accounts.antt =====
-- program/src/processor.rs: how the handlers write to accounts.
pub mod Writes
pub mod Moved
use audius_reward_manager.Prelude.{
  ◌+◌, ◌%◌, ◌^◌, Bytes, ◌++◌, ◌==◌, length, drop, ltb, if◌then◌else◌,
}
use audius_reward_manager.Outcome.{Result, ok, err, ◌>>◌, return_if}
use audius_reward_manager.Error.{ProgramError, account_borrow_failed}
use audius_reward_manager.State.{Pubkey}
use audius_reward_manager.Runtime.{AccountInfo, Ledger, Env, update}

-- `x.serialize(&mut *info.data.borrow_mut())`, of the bytes of `x`: they replace the first bytes of
-- the account's data, whose length does not change; where they do not fit, the writer fails.
unfoldable pub write_data : Env → Pubkey → Bytes → Ledger → Result ProgramError Ledger
unfolding update
write_data env k v w =
    let a = w k in
    if ltb (length a.bytes) (length v)
    then err env.write_error
    else ok (update w k (record a { bytes = v ++ drop (length v) a.bytes }))

-- `Processor::transfer_all`. Two infos of one account share its lamports, and the second borrow of
-- these fails. The sum of two `u64` wraps.
unfoldable pub transfer_all : AccountInfo → AccountInfo → Ledger → Result ProgramError Ledger
unfolding update
transfer_all source receiver w = do
  let from = w source.key
  return_if (source.key == receiver.key) account_borrow_failed
  let to = w receiver.key
  let w' = update w receiver.key (record to { lamports = (to.lamports + from.lamports) % 2 ^ 64 })
  ok (update w' source.key (record from { lamports = 0 }))
