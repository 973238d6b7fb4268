-- ===== src/Processor/Votes/Quorum.antt =====
-- What `check_secp_signs` has established when it succeeds, for any verifier.
use audius_reward_manager.Prelude.{ℕ, ◌≤◌, ◌≡◌, List, length, ltb, eqb, arith}
use audius_reward_manager.Prelude.Predicates.{All}
use audius_reward_manager.Outcome.{ok, bind-eq_ok, return_if-eq_ok, map_err, map_err-eq_ok}
use audius_reward_manager.Error.{from, not_enough_signers, secp256_instruction_missing}
use audius_reward_manager.State.{Pubkey, EthereumAddress, RewardManager}
use audius_reward_manager.Runtime.{AccountInfo, Instruction, Ledger, Env}
use audius_reward_manager.Utils.Secp.{get_secp_instructions}
use audius_reward_manager.Utils.Secp.Collect.{IsSecpBefore, get_secp_instructions-eq_ok}
use audius_reward_manager.Utils.Senders.{get_eth_addresses}
use audius_reward_manager.Utils.Senders.Genuine.{Electorate, get_eth_addresses-eq_ok}
use audius_reward_manager.Utils.Verify.{VerifierFn}
use audius_reward_manager.Processor.Votes.{check_secp_signs}

module _ (env : Env) (program_id : Pubkey) (reward_manager_info instruction_info : AccountInfo)
    (signers : List AccountInfo) (depth : ℕ) (verifier : VerifierFn) (w : Ledger) where
  -- At least `min_votes` accounts vote, all genuine senders; the transaction has exactly `depth`
  -- earlier signature instructions, and the verifier accepts these.
  pub record Quorum : Type 0 where
    pub reward_manager : RewardManager
    pub decoded :
        env.reward_manager_borsh.try_from_slice (w reward_manager_info.key).bytes
        ≡ ok reward_manager
    pub enough : reward_manager.min_votes ≤ length signers
    pub instructions : List Instruction
    pub count : length instructions ≡ depth
    pub index : ℕ
    pub index_read : env.load_current_index (w instruction_info.key).bytes ≡ ok index
    pub before : All (IsSecpBefore env (w instruction_info.key).bytes index) instructions
    pub addresses : List EthereumAddress
    pub operators : List EthereumAddress
    pub electorate : Electorate env program_id reward_manager_info.key w signers addresses operators
    pub accepted : verifier instructions addresses operators ≡ ok tt

  pub check_secp_signs-eq_ok :
      check_secp_signs env program_id reward_manager_info instruction_info signers depth verifier w
        ≡ ok tt
      → Quorum
  unfolding check_secp_signs
  check_secp_signs-eq_ok h =
      let sysvar = (w instruction_info.key).bytes in
      let (manager, decoded, h₁) =
        bind-eq_ok (env.reward_manager_borsh.try_from_slice (w reward_manager_info.key).bytes) _
          h in
      let (enough, h₂) =
        return_if-eq_ok (ltb (length signers) manager.min_votes) (from not_enough_signers) _ h₁ in
      let (index, index_read, h₂') = bind-eq_ok (env.load_current_index sysvar) _ h₂ in
      let (_, h₃) = return_if-eq_ok (eqb index 0) (from secp256_instruction_missing) _ h₂' in
      let (ixs, read, h₄) =
        bind-eq_ok (map_err from (get_secp_instructions env sysvar index depth)) _ h₃ in
      let (found, gathered, accepted) =
        bind-eq_ok (get_eth_addresses env program_id reward_manager_info.key w signers) _ h₄ in
      let (before, count) =
        get_secp_instructions-eq_ok env sysvar index depth (map_err-eq_ok from _ read) in
      record {
        reward_manager = manager;
        decoded = decoded;
        enough = ground arith;
        instructions = ixs;
        count = count;
        index = index;
        index_read = index_read;
        before = before;
        addresses = found.0;
        operators = found.1;
        electorate =
            get_eth_addresses-eq_ok env program_id reward_manager_info.key w signers gathered;
        accepted = accepted;
      }
