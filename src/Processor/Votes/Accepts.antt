-- ===== src/Processor/Votes/Accepts.antt =====
-- `check_secp_signs` accepts an honest vote.
use audius_reward_manager.Prelude.{ℕ, ◌≤◌, ◌<◌, ◌≡◌, false, true, List, length, ltb, eqb, arith}
use audius_reward_manager.Outcome.{ok, ◌>>=◌, return_if, map_err}
use audius_reward_manager.State.{Pubkey, EthereumAddress, RewardManager}
use audius_reward_manager.Runtime.{AccountInfo, Instruction, Ledger, Env}
use audius_reward_manager.Utils.Secp.Complete.{Lists, secp_only, get_secp_instructions_lem}
use audius_reward_manager.Utils.Senders.Genuine.{Electorate}
use audius_reward_manager.Utils.Senders.Complete.{get_eth_addresses-Electorate}
use audius_reward_manager.Utils.Verify.{VerifierFn}
use audius_reward_manager.Processor.Votes.{check_secp_signs}

module _ (env : Env) (program_id : Pubkey) (reward_manager_info instruction_info : AccountInfo)
    (signers : List AccountInfo) (depth : ℕ) (verifier : VerifierFn) (w : Ledger) where
  -- The chain during the vote: at least `min_votes` genuine senders with different addresses and
  -- operators vote, and the current instruction stands right behind the instructions `before`, of
  -- which `depth` are of the signature program.
  pub record Election (before : List Instruction) (addresses operators : List EthereumAddress)
      : Type 0 where
    pub reward_manager : RewardManager
    pub decoded :
        env.reward_manager_borsh.try_from_slice (w reward_manager_info.key).bytes
        ≡ ok reward_manager
    pub enough : reward_manager.min_votes ≤ length signers
    pub listed : Lists env (w instruction_info.key).bytes 0 before
    pub current : env.load_current_index (w instruction_info.key).bytes ≡ ok (length before)
    pub some_before : 0 < length before
    pub count : length (secp_only env (w instruction_info.key).bytes before) ≡ depth
    pub electorate : Electorate env program_id reward_manager_info.key w signers addresses operators

  -- In an election the vote is what the verifier says of the signature instructions and of the
  -- senders' addresses and operators.
  pub check_secp_signs-Election :
      {before : List Instruction} {addresses operators : List EthereumAddress}
      → Election before addresses operators
      → check_secp_signs env program_id reward_manager_info instruction_info signers depth verifier
          w
        ≡ verifier (secp_only env (w instruction_info.key).bytes before) addresses operators
  unfolding check_secp_signs ◌>>=◌ return_if map_err
  check_secp_signs-Election {before} {addresses} {operators} e =
      let few : ltb (length signers) e.reward_manager.min_votes ≡ false =
        ground (arith, e.enough) in
      let first : eqb (length before) 0 ≡ false = ground (arith, e.some_before) in
      let found =
        get_secp_instructions_lem env (w instruction_info.key).bytes before depth e.listed in
      let all : eqb (length (secp_only env (w instruction_info.key).bytes before)) depth ≡ true =
        ground (arith, e.count) in
      rw (
        e.decoded,
        few,
        e.current,
        first,
        found,
        all,
        get_eth_addresses-Electorate env program_id reward_manager_info.key w signers e.electorate,
      )
