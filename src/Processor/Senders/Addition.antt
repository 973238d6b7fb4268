-- ===== src/Processor/Senders/Addition.antt =====
-- Who has to agree before `process_add_sender` creates a sender.
use audius_reward_manager.Prelude.{
  ℕ, suc, refl, ◌≡◌, ◌≤◌, subst, sym, ap, ◌∙◌, List, [], ◌∷◌, length, true, not, not-eq_false,
}
use audius_reward_manager.Prelude.Predicates.{All, IsDistinct}
use mathlib.Core.List.{reverse}
use audius_reward_manager.Outcome.{ok, ok-injective, bind-eq_ok, return_if-eq_ok}
use audius_reward_manager.Error.{uninitialized_account}
use audius_reward_manager.State.{
  Pubkey, EthereumAddress, RewardManager, SenderAccount, is_initialized_manager,
}
use audius_reward_manager.Runtime.{AccountInfo, Instruction, Ledger, Env}
use audius_reward_manager.Utils.Secp.Collect.{IsSecpBefore}
use audius_reward_manager.Utils.Senders.Genuine.{AllGenuine}
use audius_reward_manager.Utils.Verify.{build_verify_secp_add_sender, add_sender_message}
use audius_reward_manager.Utils.Verify.Sound.{AllAttest}
use audius_reward_manager.Utils.Verify.Votes.{build_verify_secp_add_sender_sound}
use audius_reward_manager.Processor.Votes.{check_secp_signs}
use audius_reward_manager.Processor.Votes.Quorum.{Quorum, check_secp_signs-eq_ok}
use audius_reward_manager.Processor.Payout.Authorised.{addresses_of, operators_of}
use audius_reward_manager.Processor.Senders.{process_add_sender}

module _ (env : Env) (program_id : Pubkey)
    (reward_manager_info authority_info funder_info new_sender_info : AccountInfo)
    (instructions_info rent_info : AccountInfo) (signers_info : List AccountInfo)
    (eth_address operator : EthereumAddress) (w : Ledger) where
  -- An initialised reward manager, and at least `min_votes` of its senders, all with different
  -- addresses and different operators, each of whom signed the reward manager's key and the new
  -- sender's address in one of the signature instructions before the current one, of which there are
  -- as many as senders.
  pub record Consent : Type 0 where
    pub manager : RewardManager
    pub manager_decoded :
        env.reward_manager_borsh.try_from_slice (w reward_manager_info.key).bytes ≡ ok manager
    pub manager_initialized : is_initialized_manager manager ≡ true
    pub enough : manager.min_votes ≤ length signers_info
    pub voters : List SenderAccount
    pub voters_genuine : AllGenuine env program_id reward_manager_info.key w signers_info voters
    pub distinct_addresses : IsDistinct (addresses_of voters)
    pub distinct_operators : IsDistinct (reverse (operators_of voters))
    pub instructions : List Instruction
    pub count : length instructions ≡ length signers_info
    pub index : ℕ
    pub index_read : env.load_current_index (w instructions_info.key).bytes ≡ ok index
    pub before : All (IsSecpBefore env (w instructions_info.key).bytes index) instructions
    pub signed :
        AllAttest
          (addresses_of voters)
          (add_sender_message reward_manager_info.key eth_address)
          instructions

  length-voters :
      (infos : List AccountInfo) (voters : List SenderAccount)
      → AllGenuine env program_id reward_manager_info.key w infos voters
      → length (addresses_of voters) ≡ length infos
  length-voters [] [] g = refl
  length-voters [] (v ∷ voters) g = absurd g
  length-voters (i ∷ infos) [] g = absurd g
  length-voters (i ∷ infos) (v ∷ voters) g = ap suc (length-voters infos voters g.1)

  Consent-of_quorum :
      (manager : RewardManager)
      → env.reward_manager_borsh.try_from_slice (w reward_manager_info.key).bytes ≡ ok manager
      → is_initialized_manager manager ≡ true
      → Quorum env program_id reward_manager_info instructions_info signers_info
          (length signers_info)
          (build_verify_secp_add_sender reward_manager_info.key eth_address)
          w
      → Consent
  Consent-of_quorum manager decoded initialized q =
      let e = q.electorate in
      let same : manager ≡ q.reward_manager = ok-injective (sym decoded ∙ q.decoded) in
      let size : length q.instructions ≡ length q.addresses =
        q.count
        ∙ sym (length-voters signers_info e.voters e.genuine)
        ∙ ap (length {0}) (sym e.addresses_lem) in
      record {
        manager = q.reward_manager;
        manager_decoded = q.decoded;
        manager_initialized = subst (λ m. is_initialized_manager m ≡ true) same initialized;
        enough = q.enough;
        voters = e.voters;
        voters_genuine = e.genuine;
        distinct_addresses = subst IsDistinct e.addresses_lem e.distinct_addresses;
        distinct_operators = subst IsDistinct e.operators_lem e.distinct_operators;
        instructions = q.instructions;
        count = q.count;
        index = q.index;
        index_read = q.index_read;
        before = q.before;
        signed =
            subst
              (λ a.
                AllAttest a (add_sender_message reward_manager_info.key eth_address) q.instructions)
              e.addresses_lem
              (build_verify_secp_add_sender_sound reward_manager_info.key eth_address q.instructions
                q.addresses q.operators size q.accepted);
      }

  -- `AddSender` succeeds only for an initialised reward manager and with at least `min_votes` genuine
  -- senders with different addresses and operators, each named as the signer of the message for the
  -- new sender, in exactly as many signature instructions as there are senders, all before the current
  -- one, as the account that is passed as the instructions sysvar lists them.
  pub process_add_sender_authorised :
      {w' : Ledger}
      → process_add_sender env program_id reward_manager_info authority_info funder_info
          new_sender_info instructions_info rent_info signers_info eth_address operator w
        ≡ ok w'
      → Consent
  unfolding process_add_sender
  process_add_sender_authorised h =
      let (manager, decoded, h₁) =
        bind-eq_ok (env.reward_manager_borsh.try_from_slice (w reward_manager_info.key).bytes) _
          h in
      let (initialized, h₂) =
        return_if-eq_ok (not (is_initialized_manager manager)) uninitialized_account _ h₁ in
      let (_, checked, _) =
        bind-eq_ok
          (check_secp_signs env program_id reward_manager_info instructions_info signers_info
            (length signers_info) (build_verify_secp_add_sender reward_manager_info.key eth_address)
            w)
          _ h₂ in
      Consent-of_quorum manager decoded (not-eq_false _ initialized) (
        check_secp_signs-eq_ok env program_id reward_manager_info instructions_info signers_info
          (length signers_info) (build_verify_secp_add_sender reward_manager_info.key eth_address) w
          checked)
