-- ===== src/Processor/Senders/Creation.antt =====
-- What `process_create_sender` has checked, and the account that it leaves.
use audius_reward_manager.Prelude.{
  ◌≡◌, ◌++◌, sym, ap, ◌∙◌, [], ◌∷◌, length, true, not, ◌==◌, ==_iff, not-eq_false,
}
use audius_reward_manager.Outcome.{ok, bind-eq_ok, return_if-eq_ok, map_err, map_err-eq_ok}
use audius_reward_manager.Error.{
  from, missing_required_signature, uninitialized_account, incorect_manager_account,
  incorect_sender_account,
}
use audius_reward_manager.State.{
  Pubkey, EthereumAddress, RewardManager, SenderAccount, is_initialized_manager, new_sender_account,
  sender_account_len,
}
use audius_reward_manager.Runtime.{AccountInfo, Ledger, Env}
use audius_reward_manager.Runtime.Laws.{IsRuntime}
use audius_reward_manager.Consts.{sender_seed_prefix}
use audius_reward_manager.Utils.Address.{AddressPair, get_address_pair}
use audius_reward_manager.Processor.Accounts.Writes.{write_data_whole}
use audius_reward_manager.Processor.Senders.{process_create_sender}

module _ (env : Env) (program_id : Pubkey) (eth_address operator : EthereumAddress)
    (reward_manager_info manager_account_info authority_info funder_account_info : AccountInfo)
    (sender_info sys_prog_info rent_info : AccountInfo) (w : Ledger) where
  abbrev new_sender : SenderAccount
  new_sender = new_sender_account reward_manager_info.key eth_address operator

  -- The manager of an initialised reward manager has signed; the sender stands at the address that
  -- the reward manager and the Ethereum address derive; nothing stood there before; and now it is an
  -- account of the program that holds the new sender.
  pub record Creation (w' : Ledger) : Type 0 where
    pub signed : manager_account_info.is_signer ≡ true
    pub manager : RewardManager
    pub manager_decoded :
        env.reward_manager_borsh.try_from_slice (w reward_manager_info.key).bytes ≡ ok manager
    pub manager_initialized : is_initialized_manager manager ≡ true
    pub manager_signed : manager.manager ≡ manager_account_info.key
    pub pair : AddressPair
    pub derived :
        get_address_pair env program_id reward_manager_info.key (sender_seed_prefix ++ eth_address)
        ≡ ok pair
    pub at_derived : sender_info.key ≡ pair.derive.address
    pub unused : (w sender_info.key).lamports ≡ 0
    pub owned : (w' sender_info.key).owner ≡ program_id
    pub stored : env.sender_borsh.try_from_slice (w' sender_info.key).bytes ≡ ok new_sender

  -- Under the laws of the runtime, and where the serialised new sender has the size of its account
  -- and is read back as it was written: if `CreateSender` succeeds, the manager of the initialised
  -- reward manager has signed, the sender stands at the derived address, which held no lamports
  -- before, and is now an account of the program that holds the new sender.
  pub process_create_sender-eq_ok :
      {w' : Ledger}
      → IsRuntime env program_id
      → length (env.sender_borsh.serialize new_sender) ≡ sender_account_len
      → env.sender_borsh.try_from_slice (env.sender_borsh.serialize new_sender) ≡ ok new_sender
      → process_create_sender env program_id eth_address operator reward_manager_info
          manager_account_info authority_info funder_account_info sender_info sys_prog_info
          rent_info w
        ≡ ok w'
      → Creation w'
  unfolding process_create_sender
  process_create_sender-eq_ok {w'} laws size reads h =
      let (signed, h₁) =
        return_if-eq_ok (not manager_account_info.is_signer) missing_required_signature _ h in
      let (manager, decoded, h₂) =
        bind-eq_ok (env.reward_manager_borsh.try_from_slice (w reward_manager_info.key).bytes) _
          h₁ in
      let (initialized, h₃) =
        return_if-eq_ok (not (is_initialized_manager manager)) uninitialized_account _ h₂ in
      let (manager_signed, h₄) =
        return_if-eq_ok (not (manager.manager == manager_account_info.key))
          (from incorect_manager_account) _ h₃ in
      let (pair, derived, h₅) =
        bind-eq_ok
          (map_err env.from_pubkey_error (
            get_address_pair env program_id reward_manager_info.key
              (sender_seed_prefix ++ eth_address)))
          _ h₄ in
      let (at_derived, h₆) =
        return_if-eq_ok (not (sender_info.key == pair.derive.address))
          (from incorect_sender_account) _ h₅ in
      let (rent, _, h₇) =
        bind-eq_ok (env.rent_from_account_info rent_info.key (w rent_info.key)) _ h₆ in
      let (w₁, created, wrote) =
        bind-eq_ok
          (env.invoke_signed
            (env.create_account_with_seed_ix funder_account_info.key sender_info.key
              pair.base.address pair.derive.seed (env.minimum_balance rent sender_account_len)
              sender_account_len program_id)
            (funder_account_info ∷ sender_info ∷ authority_info ∷ [])
            ((reward_manager_info.key ∷ (pair.base.seed ∷ []) ∷ []) ∷ []) w)
          _ h₇ in
      let (unused, _, space, owner) =
        laws.create_account_creates _ sender_info.key _ _ _ _ program_id _ _ w w₁ created in
      let after = write_data_whole env sender_info.key _ w₁ (space ∙ sym size) wrote in
      record {
        signed = not-eq_false _ signed;
        manager = manager;
        manager_decoded = decoded;
        manager_initialized = not-eq_false _ initialized;
        manager_signed = (==_iff _ _).0 (not-eq_false _ manager_signed);
        pair = pair;
        derived = map_err-eq_ok env.from_pubkey_error _ derived;
        at_derived = (==_iff _ _).0 (not-eq_false _ at_derived);
        unused = unused;
        owned = after.0 ∙ owner;
        stored = ap env.sender_borsh.try_from_slice after.1 ∙ reads;
      }
