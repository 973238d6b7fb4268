-- ===== src/Processor/Once.antt =====
-- A reward is paid at most once.
use audius_reward_manager.Prelude.{
  ◌≡◌, ◌≢◌, refl, sym, subst, ◌∙◌, List, [], ◌∷◌, Bytes, length, arith, ◌++◌,
}
use audius_reward_manager.Outcome.{ok, ok-injective}
use audius_reward_manager.State.{Pubkey}
use audius_reward_manager.Instructions.{Transfer}
use audius_reward_manager.Consts.{transfer_seed_prefix, transfer_acc_balance, transfer_acc_space}
use audius_reward_manager.Runtime.{AccountInfo, Ledger, Env}
use audius_reward_manager.Runtime.Laws.{IsRuntime}
use audius_reward_manager.Utils.Address.{AddressPair, get_address_pair}
use audius_reward_manager.Utils.Cpi.{create_account_with_seed}
use audius_reward_manager.Utils.Cpi.Credits.{token_transfer-KeepsOwned}
use audius_reward_manager.Processor.Records.{HasRecord, KeepsOwned-HasRecord}
use audius_reward_manager.Processor.History.{Reach, Reach-HasRecord}
use audius_reward_manager.Processor.Payout.{process_transfer}
use audius_reward_manager.Processor.Payout.Inversion.{process_transfer-eq_ok}

length-eq-zero : (xs : Bytes) → length xs ≡ 0 → xs ≡ []
length-eq-zero [] h = refl
length-eq-zero (x ∷ xs) h = absurd (omega arith)

module _ (env : Env) (program_id : Pubkey) (laws : IsRuntime env program_id) where
  -- The account of the record was empty before, and is a record afterwards.
  create_record_lem :
      (reward_manager : Pubkey) (funder account_to_create base : AccountInfo) (seeds : Bytes)
      (w w' : Ledger)
      → create_account_with_seed env program_id funder account_to_create base reward_manager seeds
          transfer_acc_balance transfer_acc_space program_id w
        ≡ ok w'
      → ((w account_to_create.key).lamports ≡ 0) × HasRecord program_id account_to_create.key w'
  unfolding create_account_with_seed
  create_record_lem reward_manager funder account_to_create base seeds w w' h =
      let (free, lamports, space, owner) =
        laws.create_account_creates _ account_to_create.key _ _ _ _ program_id _ _ w w' h in
      (
        free,
        record {
          owned = owner;
          empty = length-eq-zero (w' account_to_create.key).bytes space;
          funded = omega arith;
        },
      )

  -- Where the record of a transfer's id stands, no transfer with that id succeeds.
  pub process_transfer_recorded :
      (i₁ i₂ i₃ i₄ i₅ i₆ i₇ i₈ : AccountInfo) (t : Transfer) (senders : List AccountInfo)
      (w w' : Ledger) (pair : AddressPair)
      → get_address_pair env program_id i₁.key (transfer_seed_prefix ++ t.id) ≡ ok pair
      → HasRecord program_id pair.derive.address w
      → process_transfer env program_id i₁ i₂ i₃ i₄ i₅ i₆ i₇ i₈ t senders w ≢ ok w'
  process_transfer_recorded i₁ i₂ i₃ i₄ i₅ i₆ i₇ i₈ t senders w w' pair derived r h =
      let p = process_transfer-eq_ok env program_id i₁ i₂ i₃ i₄ i₅ i₆ i₇ i₈ t senders w h in
      let same : pair ≡ p.transfer_pair = ok-injective (sym derived ∙ p.transfer_derived) in
      let at_key : HasRecord program_id i₇.key w =
        subst (λ k. HasRecord program_id k w) p.transfer_key
          (subst (λ (q : AddressPair). HasRecord program_id q.derive.address w) same r) in
      let still =
        KeepsOwned-HasRecord env program_id laws i₇.key w p.paid
          (token_transfer-KeepsOwned env program_id laws i₁.key i₄ i₃ i₂ t.amount w p.paid p.pays)
          at_key in
      let free =
        (create_record_lem i₁.key i₆ i₇ i₂ (transfer_seed_prefix ++ t.id) p.paid w' p.records).0 in
      absurd (omega (arith, still.funded, free))

  -- A successful transfer leaves the record of its id.
  pub process_transfer_records :
      (i₁ i₂ i₃ i₄ i₅ i₆ i₇ i₈ : AccountInfo) (t : Transfer) (senders : List AccountInfo)
      (w w' : Ledger)
      → process_transfer env program_id i₁ i₂ i₃ i₄ i₅ i₆ i₇ i₈ t senders w ≡ ok w'
      → (pair : AddressPair) × (get_address_pair env program_id i₁.key
            (transfer_seed_prefix ++ t.id)
          ≡ ok pair)
        × HasRecord program_id pair.derive.address w'
  process_transfer_records i₁ i₂ i₃ i₄ i₅ i₆ i₇ i₈ t senders w w' h =
      let p = process_transfer-eq_ok env program_id i₁ i₂ i₃ i₄ i₅ i₆ i₇ i₈ t senders w h in
      let created =
        create_record_lem i₁.key i₆ i₇ i₂ (transfer_seed_prefix ++ t.id) p.paid w' p.records in
      (
        p.transfer_pair,
        p.transfer_derived,
        subst (λ k. HasRecord program_id k w') (sym p.transfer_key) created.1,
      )

  -- Each reward is paid only once as long as rent collection spares its record, under the laws of the
  -- runtime. After a successful transfer for the reward manager `m` and the id `t.id`, and any
  -- successful instructions of the program, from ledgers whose lamports fit a `u64`, changes by others,
  -- who only credit the program's accounts, and collections of rent that spare the account whose
  -- address the id derives, every transfer for the same reward manager and the same id fails, whatever
  -- its other accounts, amount, recipient and senders.
  pub no_second_payout :
      (m i₂ i₃ i₄ i₅ i₆ i₇ i₈ : AccountInfo) (t : Transfer) (senders : List AccountInfo)
      (m' j₂ j₃ j₄ j₅ j₆ j₇ j₈ : AccountInfo) (t' : Transfer) (senders' : List AccountInfo)
      (w₀ w₁ w₂ w₃ : Ledger) (Spared : Pubkey → Type 0)
      → ((pair : AddressPair)
          → get_address_pair env program_id m.key (transfer_seed_prefix ++ t.id) ≡ ok pair
          → Spared pair.derive.address)
      → m'.key ≡ m.key
      → t'.id ≡ t.id
      → process_transfer env program_id m i₂ i₃ i₄ i₅ i₆ i₇ i₈ t senders w₀ ≡ ok w₁
      → Reach env program_id Spared w₁ w₂
      → process_transfer env program_id m' j₂ j₃ j₄ j₅ j₆ j₇ j₈ t' senders' w₂ ≢ ok w₃
  no_second_payout m i₂ i₃ i₄ i₅ i₆ i₇ i₈ t senders m' j₂ j₃ j₄ j₅ j₆ j₇ j₈ t' senders' w₀ w₁ w₂ w₃
        Spared spares same_manager same_id h path =
      let (pair, derived, recorded) =
        process_transfer_records m i₂ i₃ i₄ i₅ i₆ i₇ i₈ t senders w₀ w₁ h in
      let derived' : get_address_pair env program_id m'.key (transfer_seed_prefix ++ t'.id)
          ≡ ok pair =
        rw same_manager (rw same_id derived) in
      process_transfer_recorded m' j₂ j₃ j₄ j₅ j₆ j₇ j₈ t' senders' w₂ w₃ pair derived' (
        Reach-HasRecord env program_id Spared laws pair.derive.address (spares pair derived)
          recorded path)
