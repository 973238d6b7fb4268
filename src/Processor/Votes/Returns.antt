-- ===== src/Processor/Votes/Returns.antt =====
-- A vote ends without a panic.
use audius_reward_manager.Prelude.{◌+◌, zero, suc, ℕ, List, [], ◌∷◌, Bytes}
use audius_reward_manager.Prelude.Predicates.{All, All-map}
use audius_reward_manager.Outcome.{map_err-eq_ok}
use audius_reward_manager.Outcome.Returns.{
  Returns, Returns-ok, Returns-bind, Returns-bind_any, Returns-return_if, Returns-map_err,
  returns_rules,
}
use audius_reward_manager.State.{Pubkey, EthereumAddress, SenderAccount}
use audius_reward_manager.Instructions.{Transfer}
use audius_reward_manager.Runtime.{AccountInfo, Instruction, Ledger, Env}
use audius_reward_manager.Runtime.Returns.{HasReturns, IsListing}
use audius_reward_manager.Utils.Address.{is_owner, get_derived_address, get_address_pair}
use audius_reward_manager.Utils.Secp.{collect_secp, get_secp_instructions}
use audius_reward_manager.Utils.Secp.Collect.{get_secp_instructions-eq_ok}
use audius_reward_manager.Utils.Senders.{load_signer, collect_senders, get_eth_addresses}
use audius_reward_manager.Utils.Verify.{
  VerifierFn, build_verify_secp_transfer, build_verify_secp_add_sender,
}
use audius_reward_manager.Utils.Verify.Returns.{
  IsLong, build_verify_secp_transfer-Returns, build_verify_secp_add_sender-Returns,
}
use audius_reward_manager.Processor.Votes.{check_secp_signs}

pub is_owner-Returns :
    (program_id : Pubkey) (infos : List AccountInfo) (w : Ledger)
    → Returns (is_owner program_id infos w)
unfolding is_owner
is_owner-Returns program_id [] w = Returns-ok tt
is_owner-Returns program_id (info ∷ infos) w =
    Returns-return_if _ _ _ (is_owner-Returns program_id infos w)

module _ (env : Env) (program_id : Pubkey) (has : HasReturns env) where
  pub get_address_pair-Returns :
      (reward_manager : Pubkey) (seed : Bytes)
      → Returns (get_address_pair env program_id reward_manager seed)
  unfolding get_address_pair get_derived_address
  get_address_pair-Returns reward_manager seed = search (returns_rules, has.derives_address)

  collect_secp-Returns :
      (sysvar : Bytes) (rounds ind : ℕ) (found : List Instruction)
      → Returns (collect_secp env sysvar rounds ind found)
  unfolding collect_secp
  collect_secp-Returns sysvar zero ind found = Returns-ok found
  collect_secp-Returns sysvar (suc rounds) ind found =
      Returns-bind_any _ _ (Returns-map_err _ _ (has.loads_instruction ind sysvar))
        λ ix. collect_secp-Returns sysvar rounds (ind + 1) _

  get_secp_instructions-Returns :
      (sysvar : Bytes) (index count : ℕ) → Returns (get_secp_instructions env sysvar index count)
  unfolding get_secp_instructions
  get_secp_instructions-Returns sysvar index count = search (returns_rules, collect_secp-Returns)

  module _ (reward_manager : Pubkey) (w : Ledger) where
    load_signer-Returns :
        (signer : AccountInfo) → Returns (load_signer env program_id reward_manager w signer)
    unfolding load_signer
    load_signer-Returns signer =
        search (returns_rules, has.decodes_sender, is_owner-Returns, get_address_pair-Returns) depth
          8

    collect_senders-Returns :
        (signers : List AccountInfo) (addresses operators : List EthereumAddress)
        → Returns (collect_senders env program_id reward_manager w signers addresses operators)
    unfolding collect_senders
    collect_senders-Returns [] addresses operators = Returns-ok _
    collect_senders-Returns (signer ∷ signers) addresses operators =
        Returns-bind_any _ _ (load_signer-Returns signer) λ s.
          Returns-return_if _ _ _ (Returns-return_if _ _ _ (collect_senders-Returns signers _ _))

  module _ (w : Ledger) where
    -- A vote, where the verifier panics on no long instructions.
    check_secp_signs-Returns :
        (reward_manager instructions : AccountInfo) (signers : List AccountInfo) (depth : ℕ)
        (verifier : VerifierFn)
        → IsListing env (w instructions.key).bytes
        → ((ixs : List Instruction) (addresses operators : List EthereumAddress)
            → All IsLong ixs
            → Returns (verifier ixs addresses operators))
        → Returns
            (check_secp_signs env program_id reward_manager instructions signers depth verifier w)
    unfolding check_secp_signs get_eth_addresses collect_senders
    check_secp_signs-Returns reward_manager instructions signers depth verifier long passes =
        Returns-bind_any _ _ (has.decodes_manager _) λ m. Returns-return_if _ _ _ (
          Returns-bind_any _ _ (has.loads_index _ long.indexed) λ index. Returns-return_if _ _ _ (
            Returns-bind _ _ (Returns-map_err _ _ (get_secp_instructions-Returns _ _ _))
              λ ixs found.
                Returns-bind_any _ _ (collect_senders-Returns reward_manager.key w signers [] [])
                  λ (addresses, operators). passes ixs addresses operators (
                    All-map (λ ix b. long.long b.position ix b.loaded b.program) ixs
                      (get_secp_instructions-eq_ok env (w instructions.key).bytes _ _
                        (map_err-eq_ok _ _ found)).0)))

    -- The two votes.
    pub add_vote-Returns :
        (reward_manager instructions : AccountInfo) (signers : List AccountInfo) (depth : ℕ)
        (eth_address : EthereumAddress)
        → IsListing env (w instructions.key).bytes
        → Returns (
            check_secp_signs env program_id reward_manager instructions signers depth
              (build_verify_secp_add_sender reward_manager.key eth_address)
              w)
    add_vote-Returns reward_manager instructions signers depth eth_address long =
        check_secp_signs-Returns reward_manager instructions signers depth _ long
          (build_verify_secp_add_sender-Returns reward_manager.key eth_address)

    pub pay_vote-Returns :
        (reward_manager instructions : AccountInfo) (signers : List AccountInfo) (depth : ℕ)
        (oracle : SenderAccount) (t : Transfer)
        → IsListing env (w instructions.key).bytes
        → Returns (
            check_secp_signs env program_id reward_manager instructions signers depth
              (build_verify_secp_transfer oracle t)
              w)
    pay_vote-Returns reward_manager instructions signers depth oracle t long =
        check_secp_signs-Returns reward_manager instructions signers depth _ long
          (λ ixs addresses. build_verify_secp_transfer-Returns oracle t addresses ixs)
