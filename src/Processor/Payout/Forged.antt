-- ===== src/Processor/Payout/Forged.antt =====
-- What `process_transfer` asks of the account that is passed as the instructions sysvar: its data
-- alone.
use audius_reward_manager.Prelude.{
  ◌+◌, ◌≡◌, sym, subst, ◌∙◌, List, [], ◌∷◌, ◌++◌, append-nil, contains, false, length, arith,
}
use audius_reward_manager.Prelude.Predicates.{IsDistinct}
use audius_reward_manager.Outcome.{◌>>=◌, bind-ok}
use audius_reward_manager.State.{Pubkey, EthereumAddress, SenderAccount}
use audius_reward_manager.Instructions.{Transfer}
use audius_reward_manager.Runtime.{AccountInfo, Instruction, Ledger, Env}
use audius_reward_manager.Consts.{transfer_seed_prefix, transfer_acc_balance, transfer_acc_space}
use audius_reward_manager.Utils.Cpi.{token_transfer, create_account_with_seed}
use audius_reward_manager.Utils.Secp.Complete.{secp_only}
use audius_reward_manager.Utils.Secp.Reading.{Attests}
use audius_reward_manager.Utils.Verify.{
  bot_oracle_message, senders_message, build_verify_secp_transfer,
}
use audius_reward_manager.Utils.Verify.Ballots.{Ballots, Within-self}
use audius_reward_manager.Utils.Verify.Honest.{build_verify_secp_transfer-Ballots}
use audius_reward_manager.Processor.Votes.Accepts.{Election, check_secp_signs-Election}
use audius_reward_manager.Processor.Payout.{process_transfer}
use audius_reward_manager.Processor.Payout.Pays.{IsPayable, process_transfer-IsPayable}

module _ (env : Env) (program_id : Pubkey)
    (reward_manager reward_manager_authority recipient vault_token_account : AccountInfo)
    (bot_oracle funder transfer_acc_to_create instruction_info : AccountInfo)
    (transfer_data : Transfer) (senders : List AccountInfo) (w : Ledger) where
  -- The account that is passed as the instructions sysvar counts by its data only, at any key and of
  -- any owner. With the accounts of the reward and at least `min_votes` genuine senders with different
  -- addresses and operators, none of which is the oracle's: if these data read as instructions of the
  -- signature program that name each sender with the senders' message, and then the oracle with its
  -- own, followed by the current one, then the tokens are transferred and the record is created.
  pub process_transfer_forged :
      {oracle : SenderAccount} (addresses operators : List EthereumAddress)
      (ballots : List Instruction) (oracle_ballot : Instruction)
      → IsPayable env program_id reward_manager reward_manager_authority recipient
          vault_token_account bot_oracle funder transfer_acc_to_create instruction_info
          transfer_data senders w oracle
      → Ballots addresses (senders_message transfer_data oracle.eth_address) ballots
      → Attests oracle.eth_address (bot_oracle_message transfer_data) oracle_ballot.bytes
      → contains addresses oracle.eth_address ≡ false
      → contains operators oracle.operator ≡ false
      → secp_only env (w instruction_info.key).bytes (ballots ++ oracle_ballot ∷ [])
        ≡ ballots ++ oracle_ballot ∷ []
      → Election env program_id reward_manager instruction_info senders
          (length senders + 1)
          (build_verify_secp_transfer oracle transfer_data)
          w
          (ballots ++ oracle_ballot ∷ [])
          addresses
          operators
      → process_transfer env program_id reward_manager reward_manager_authority recipient
          vault_token_account bot_oracle funder transfer_acc_to_create instruction_info
          transfer_data senders w
        ≡ (token_transfer env program_id reward_manager.key vault_token_account recipient
              reward_manager_authority transfer_data.amount w
            >>= λ paid.
                create_account_with_seed env program_id funder transfer_acc_to_create
                  reward_manager_authority reward_manager.key
                  (transfer_seed_prefix ++ transfer_data.id)
                  transfer_acc_balance
                  transfer_acc_space
                  program_id
                  paid)
  process_transfer_forged {oracle} addresses operators ballots oracle_ballot payable cast attests
        stranger apart secp election =
      let verifier = build_verify_secp_transfer oracle transfer_data in
      let passes =
        check_secp_signs-Election env program_id reward_manager instruction_info senders
          (length senders + 1) verifier w election
        ∙ rw secp (
            build_verify_secp_transfer-Ballots oracle transfer_data addresses stranger addresses []
              operators ballots [] oracle_ballot cast tt attests
              (subst IsDistinct (sym (append-nil addresses)) election.electorate.distinct_addresses)
              (Within-self addresses) tt (omega arith) apart) in
      process_transfer-IsPayable env program_id reward_manager reward_manager_authority recipient
        vault_token_account bot_oracle funder transfer_acc_to_create instruction_info transfer_data
        senders w payable
      ∙ bind-ok _ passes
