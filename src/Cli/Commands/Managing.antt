-- ===== src/Cli/Commands/Managing.antt =====
-- What the transactions of `command_create_sender` and `command_delete_sender` do on the chain.
use audius_reward_manager.Prelude.{
  false, ◌≡◌, ◌≢◌, refl, sym, ◌∙◌, subst, List, [], ◌∷◌, ◌++◌, some, true,
}
use audius_reward_manager.Outcome.{ok, bind-eq_ok, bind-ok, map_err-eq_ok, ok-injective}
use audius_reward_manager.State.{
  new_sender_account, sender_account_len, new_sender_account, sender_account_len, Pubkey,
  EthereumAddress, RewardManager, SenderAccount,
}
use audius_reward_manager.Instructions.{Instructions}
use audius_reward_manager.Instructions.Builders.{delete_sender, readonly, writable}
use audius_reward_manager.Instructions.Builders.Agreement.{
  create_sender-submit, create_sender-submit, account_info, account_infos, IsReadBack,
  delete_sender-submit,
}
use audius_reward_manager.Runtime.{Instruction, Ledger, Env}
use audius_reward_manager.Runtime.Laws.{IsSolvent}
use audius_reward_manager.Consts.{sender_seed_prefix}
use audius_reward_manager.Utils.Address.{AddressPair, get_address_pair}
use audius_reward_manager.Processor.Accounts.Moved.{Moved}
use audius_reward_manager.Processor.Dispatch.{process_instruction}
use audius_reward_manager.Processor.Senders.Managed.{process_delete_sender-managed}
use audius_reward_manager.Cli.Client.{Text, Client}
use audius_reward_manager.Cli.Transaction.{Config, OnchainTransaction}
use audius_reward_manager.Cli.Commands.{command_delete_sender}
use audius_reward_manager.Cli.Commands.Signed.{expect-eq_ok, sign-eq_ok}

module _ (env : Env) (client : Client) (config : Config) (id : Pubkey) where
  -- The last instruction of a transaction turns one ledger into another.
  pub record Runs (tx : OnchainTransaction) (before : List Instruction) (w w' : Ledger)
      : Type 0 where
    pub last : Instruction
    pub instructions_lem : tx.instructions ≡ before ++ last ∷ []
    pub ran : process_instruction env id (account_infos last) last.bytes w ≡ ok w'

  module _ (reward_manager : Pubkey) where
    -- The client and the program work together. If the owner of the client manages the reward
    -- manager, and the 20 bytes of the argument derive the pair, at which a sender of this reward
    -- manager stands that is not the fee payer: the one instruction of the transaction of
    -- `command_delete_sender`, run with its accounts, moves all lamports of the sender to the fee
    -- payer, and changes nothing else. The lamports of any two accounts fit a `u64`, and the program
    -- reads back what the client wrote.
    pub command_delete_sender_deletes :
        (eth_sender_address : Text) {tx : OnchainTransaction} {d : EthereumAddress}
        {pair : AddressPair} {sender : SenderAccount} {manager : RewardManager} (w : Ledger)
        → command_delete_sender env client config id reward_manager eth_sender_address
          ≡ ok (some tx)
        → client.from_hex 20 eth_sender_address ≡ ok d
        → get_address_pair env id reward_manager (sender_seed_prefix ++ d) ≡ ok pair
        → IsReadBack env id reward_manager w Instructions.delete_sender
        → env.sender_borsh.try_from_slice (w pair.derive.address).bytes ≡ ok sender
        → sender.reward_manager ≡ reward_manager
        → env.reward_manager_borsh.try_from_slice (w reward_manager).bytes ≡ ok manager
        → manager.manager ≡ config.owner
        → pair.derive.address ≢ config.fee_payer
        → IsSolvent w
        → (w' : Ledger) × Runs tx [] w w' × Moved pair.derive.address config.fee_payer w w'
    unfolding command_delete_sender
    command_delete_sender_deletes eth_sender_address {d = d} {pair = pair} w h decoded derived read
          stored belongs stored' managed ne solvent =
        let (d', decoded', h₁) = bind-eq_ok _ _ h in
        let (last, built, h₂) = bind-eq_ok _ _ h₁ in
        let same : d' ≡ d = ok-injective (sym (expect-eq_ok _ decoded') ∙ decoded) in
        let builds =
          subst
            (λ (x : EthereumAddress).
              delete_sender env id reward_manager config.owner config.fee_payer x ≡ ok last)
            same (map_err-eq_ok _ _ built) in
        let (w', runs, moved) =
          process_delete_sender-managed env id w (account_info (readonly reward_manager false))
            (account_info (readonly config.owner true))
            (account_info (writable pair.derive.address false))
            (account_info (writable config.fee_payer false))
            (account_info (readonly env.system_program_id false)) refl stored belongs stored'
            managed ne solvent in
        (
          w',
          record {
            last = last;
            instructions_lem = (sign-eq_ok env client config id _ 0 h₂).0;
            ran =
                sym (bind-ok _ builds)
                ∙ delete_sender-submit env id reward_manager w config.owner config.fee_payer d pair
                    read derived
                ∙ runs;
          },
          moved,
        )
