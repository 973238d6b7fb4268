-- ===== src/Processor/Payout/Authorised.antt =====
-- Who has to agree before a reward is paid.
use audius_reward_manager.Prelude.{
  ℕ, ◌+◌, ◌≤◌, ◌≡◌, sym, ◌∙◌, true, subst, List, false, contains, length, map,
}
use mathlib.Core.List.{reverse}
use audius_reward_manager.Prelude.Predicates.{All, IsDistinct}
use audius_reward_manager.Outcome.{ok, ok-injective}
use audius_reward_manager.State.{
  Pubkey, EthereumAddress, RewardManager, SenderAccount, is_initialized_manager,
}
use audius_reward_manager.Instructions.{Transfer}
use audius_reward_manager.Runtime.{AccountInfo, Instruction, Ledger, Env}
use audius_reward_manager.Utils.Secp.Reading.{SomeAttests}
use audius_reward_manager.Utils.Secp.Collect.{IsSecpBefore}
use audius_reward_manager.Utils.Senders.Genuine.{IsGenuine, AllGenuine}
use audius_reward_manager.Utils.Verify.{bot_oracle_message, senders_message}
use audius_reward_manager.Utils.Verify.Sound.{AllAttest, build_verify_secp_transfer_sound}
use audius_reward_manager.Processor.Payout.{process_transfer}
use audius_reward_manager.Processor.Payout.Inversion.{process_transfer-eq_ok}

abbrev pub addresses_of : List SenderAccount → List EthereumAddress
addresses_of = map (λ (v : SenderAccount). v.eth_address)

abbrev pub operators_of : List SenderAccount → List EthereumAddress
operators_of = map (λ (v : SenderAccount). v.operator)

module _ (env : Env) (program_id : Pubkey)
    (reward_manager bot_oracle instruction_info : AccountInfo) (transfer_data : Transfer)
    (senders : List AccountInfo) (w : Ledger) where
  -- The agreement of the README: an initialised reward manager that the program owns, at least
  -- `min_votes` senders with different addresses and different operators, each of whom signed the
  -- recipient, the amount, the id and the oracle; and the oracle, whose operator is none of theirs,
  -- signed the recipient, the amount and the id. That is, signature instructions name them with these
  -- messages. Each stands before the current instruction, and there is no other, in the account that
  -- is passed as the instructions sysvar.
  pub record Agreement : Type 0 where
    pub manager : RewardManager
    pub manager_decoded :
        env.reward_manager_borsh.try_from_slice (w reward_manager.key).bytes ≡ ok manager
    pub manager_initialized : is_initialized_manager manager ≡ true
    pub manager_owned : (w reward_manager.key).owner ≡ program_id
    pub oracle : SenderAccount
    pub oracle_genuine : IsGenuine env program_id reward_manager.key w bot_oracle oracle
    pub voters : List SenderAccount
    pub voters_genuine : AllGenuine env program_id reward_manager.key w senders voters
    pub enough : manager.min_votes ≤ length senders
    pub distinct_addresses : IsDistinct (addresses_of voters)
    pub distinct_operators : IsDistinct (reverse (operators_of voters))
    pub oracle_apart : contains (reverse (operators_of voters)) oracle.operator ≡ false
    pub instructions : List Instruction
    pub count : length instructions ≡ length senders + 1
    pub index : ℕ
    pub index_read : env.load_current_index (w instruction_info.key).bytes ≡ ok index
    pub before : All (IsSecpBefore env (w instruction_info.key).bytes index) instructions
    pub senders_signed :
        AllAttest
          (addresses_of voters)
          (senders_message transfer_data oracle.eth_address)
          instructions
    pub oracle_signed :
        SomeAttests oracle.eth_address (bot_oracle_message transfer_data) instructions

module _ (env : Env) (program_id : Pubkey)
    (reward_manager reward_manager_authority recipient vault_token_account : AccountInfo)
    (bot_oracle funder transfer_acc_to_create instruction_info : AccountInfo)
    (transfer_data : Transfer) (senders : List AccountInfo) (w : Ledger) where
  -- A reward is paid only by an initialised reward manager that the program owns, with at least
  -- `min_votes` genuine senders with different addresses and operators, each named as the signer of
  -- the senders' message, and a genuine oracle, with an operator of its own, named as the signer of
  -- the oracle's message, in exactly one signature instruction more than there are senders, all before
  -- the current one, as the account that is passed as the instructions sysvar lists them.
  pub process_transfer_authorised :
      {w' : Ledger}
      → process_transfer env program_id reward_manager reward_manager_authority recipient
          vault_token_account bot_oracle funder transfer_acc_to_create instruction_info
          transfer_data senders w
        ≡ ok w'
      → Agreement env program_id reward_manager bot_oracle instruction_info transfer_data senders w
  process_transfer_authorised h =
      let p =
        process_transfer-eq_ok env program_id reward_manager reward_manager_authority recipient
          vault_token_account bot_oracle funder transfer_acc_to_create instruction_info
          transfer_data senders w h in
      let q = p.quorum in
      let e = q.electorate in
      let (all, one, apart) =
        build_verify_secp_transfer_sound p.oracle transfer_data q.instructions q.addresses
          q.operators q.accepted in
      record {
        manager = q.reward_manager;
        manager_decoded = q.decoded;
        manager_initialized =
            subst (λ m. is_initialized_manager m ≡ true)
              (ok-injective (sym p.manager_decoded ∙ q.decoded)) p.manager_initialized;
        manager_owned = p.manager_owned;
        oracle = p.oracle;
        oracle_genuine = p.oracle_genuine;
        voters = e.voters;
        voters_genuine = e.genuine;
        enough = q.enough;
        distinct_addresses = subst IsDistinct e.addresses_lem e.distinct_addresses;
        distinct_operators = subst IsDistinct e.operators_lem e.distinct_operators;
        oracle_apart = subst (λ ops. contains ops p.oracle.operator ≡ false) e.operators_lem apart;
        instructions = q.instructions;
        count = q.count;
        index = q.index;
        index_read = q.index_read;
        before = q.before;
        senders_signed =
            subst
              (λ a. AllAttest a (senders_message transfer_data p.oracle.eth_address) q.instructions)
              e.addresses_lem all;
        oracle_signed = one;
      }
