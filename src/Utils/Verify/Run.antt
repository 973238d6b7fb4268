-- ===== src/Utils/Verify/Run.antt =====
-- The loop of `build_verify_secp_transfer` over all instructions: how far the count rises, and what
-- stands behind each mark.
use audius_reward_manager.Prelude.{
  ℕ, ◌+◌, ◌≡◌, refl, ap, subst, ◌∙◌, ◌⊎◌, List, [], ◌∷◌, Bool, true, some, Bytes, ◌==◌, ==_iff,
  contains, contains_cons, lookup, lookup-insert, length, arith, inl, inr, Bool-cases,
  if◌then◌else◌,
}
use audius_reward_manager.Outcome.{ok, bind-eq_ok}
use audius_reward_manager.State.{EthereumAddress, SenderAccount}
use audius_reward_manager.Instructions.{Transfer}
use audius_reward_manager.Runtime.{Instruction}
use audius_reward_manager.Utils.Secp.{get_signer_from_secp_instruction}
use audius_reward_manager.Utils.Secp.Reading.{Attests, SomeAttests}
use audius_reward_manager.Utils.Checkmap.Count.{trues, trues-insert}
use audius_reward_manager.Utils.Verify.{
  Progress, oracle_step, sender_step, verify_instructions, bot_oracle_message, senders_message,
}
use audius_reward_manager.Utils.Verify.Steps.{
  OracleVote, SenderVote, oracle_step-eq_ok, sender_step-eq_ok,
}

module _ (bot_oracle : SenderAccount) (transfer_data : Transfer)
    (signers : List EthereumAddress) where
  -- 1 once the oracle's operator is in the set
  abbrev pub oracle_count : Progress → ℕ
  oracle_count p = if contains p.operators bot_oracle.operator then 1 else 0

  -- From `p` to `q` the count rises by the new marks, and by one if the oracle's operator is new.
  pub record Tallies (p q : Progress) : Type 0 where
    pub counted :
        q.successful_verifications + trues p.checkmap + oracle_count p
        ≡ p.successful_verifications + trues q.checkmap + oracle_count q
    pub same_size : length q.checkmap ≡ length p.checkmap

  -- From `p` to `q`, over `ixs`, each new mark and a new operator of the oracle has its instruction,
  -- and no entry is lost.
  pub record Shows (ixs : List Instruction) (p q : Progress) : Type 0 where
    pub sender :
        (s : Bytes)
        → lookup s q.checkmap ≡ some true
        → (lookup s p.checkmap ≡ some true)
          ⊎ SomeAttests s (senders_message transfer_data bot_oracle.eth_address) ixs
    pub oracle :
        contains q.operators bot_oracle.operator ≡ true
        → (contains p.operators bot_oracle.operator ≡ true)
          ⊎ SomeAttests bot_oracle.eth_address (bot_oracle_message transfer_data) ixs
    pub present :
        (s : Bytes) (b : Bool)
        → lookup s p.checkmap ≡ some b
        → (b' : Bool) × (lookup s q.checkmap ≡ some b')

  Tallies-oracle :
      (s : EthereumAddress) (ix : Instruction) (p q : Progress)
      → OracleVote bot_oracle transfer_data s ix p q
      → Tallies p q
  Tallies-oracle s ix p q v = ground (arith, contains_cons bot_oracle.operator p.operators)

  Tallies-sender :
      (s : EthereumAddress) (ix : Instruction) (p q : Progress)
      → SenderVote bot_oracle transfer_data signers s ix p q
      → Tallies p q
  Tallies-sender s ix p q v = ground (arith, trues-insert s p.checkmap v.unmarked)

  Shows-oracle :
      (s : EthereumAddress) (ix : Instruction) (p q : Progress)
      → OracleVote bot_oracle transfer_data s ix p q
      → Shows (ix ∷ []) p q
  Shows-oracle s ix p q v = record {
    sender = λ t h. inl (ground arith);
    oracle = λ h. inr (inl v.signed);
    present = λ t b h. (b, ground arith);
  }

  Shows-sender :
      (s : EthereumAddress) (ix : Instruction) (p q : Progress)
      → SenderVote bot_oracle transfer_data signers s ix p q
      → Shows (ix ∷ []) p q
  Shows-sender s ix p q v =
      let m = senders_message transfer_data bot_oracle.eth_address in
      let l : (t : Bytes)
          → lookup t q.checkmap ≡ (if s == t then some true else lookup t p.checkmap) =
        λ t.
          ap (λ (r : Progress). lookup t r.checkmap) v.after ∙ lookup-insert s t true p.checkmap in
      record {
        sender = λ t h. elim (Bool-cases (s == t)) [
          | inl same ↦ inr (inl (subst (λ x. Attests x m ix.bytes) ((==_iff s t).0 same) v.signed))
          | inr differs ↦ inl (ground (arith, l t))
        ];
        oracle = λ h. inl (ground arith);
        present = λ t b h. (if s == t then true else b, ground (arith, l t));
      }

  Tallies-refl : (p : Progress) → Tallies p p
  Tallies-refl p = record { counted = refl; same_size = refl }

  Tallies-trans : (p q r : Progress) → Tallies p q → Tallies q r → Tallies p r
  Tallies-trans p q r a b = record {
    counted = omega (arith, a.counted, b.counted);
    same_size = b.same_size ∙ a.same_size;
  }

  -- Two parts of one round, or two rounds.
  Shows-trans :
      (ixs : List Instruction) (p q r : Progress) → Shows ixs p q → Shows ixs q r → Shows ixs p r
  Shows-trans ixs p q r a b = record {
    sender = λ s h. elim (b.sender s h) [ inl marked ↦ a.sender s marked | inr shown ↦ inr shown ];
    oracle = λ h. elim (b.oracle h) [ inl marked ↦ a.oracle marked | inr shown ↦ inr shown ];
    present = λ s v h. let (v', h') = a.present s v h in b.present s v' h';
  }

  -- What a part of the instructions shows, all of them show.
  Shows-weaken :
      (ixs jxs : List Instruction) (p q : Progress)
      → ((s m : Bytes) → SomeAttests s m ixs → SomeAttests s m jxs)
      → Shows ixs p q
      → Shows jxs p q
  Shows-weaken ixs jxs p q f a = record {
    sender = λ s h. elim (a.sender s h) [ inl old ↦ inl old | inr shown ↦ inr (f _ _ shown) ];
    oracle = λ h. elim (a.oracle h) [ inl old ↦ inl old | inr shown ↦ inr (f _ _ shown) ];
    present = a.present;
  }

  Shows-refl : (ixs : List Instruction) (p : Progress) → Shows ixs p p
  Shows-refl ixs p = record {
    sender = λ s h. inl h;
    oracle = λ h. inl h;
    present = λ s b h. (b, h);
  }

  -- The two parts of a round.
  oracle_part :
      (s : EthereumAddress) (ix : Instruction) (p : Progress) {q : Progress}
      → get_signer_from_secp_instruction ix.bytes ≡ ok s
      → oracle_step bot_oracle transfer_data s ix p ≡ ok q
      → Tallies p q × Shows (ix ∷ []) p q
  oracle_part s ix p {q} g h = elim (oracle_step-eq_ok bot_oracle transfer_data s ix p g h) [
    | inl v ↦ (Tallies-oracle s ix p q v, Shows-oracle s ix p q v)
    | inr (_, e) ↦ rw e (Tallies-refl p, Shows-refl (ix ∷ []) p)
  ]

  sender_part :
      (s : EthereumAddress) (ix : Instruction) (p : Progress) {q : Progress}
      → get_signer_from_secp_instruction ix.bytes ≡ ok s
      → sender_step bot_oracle transfer_data signers s ix p ≡ ok q
      → Tallies p q × Shows (ix ∷ []) p q
  sender_part s ix p {q} g h =
      elim (sender_step-eq_ok bot_oracle transfer_data signers s ix p g h) [
        | inl v ↦ (Tallies-sender s ix p q v, Shows-sender s ix p q v)
        | inr (_, e) ↦ rw e (Tallies-refl p, Shows-refl (ix ∷ []) p)
      ]

  -- A successful run of the loop.
  pub verify_instructions-eq_ok :
      (ixs : List Instruction) (p : Progress) {q : Progress}
      → verify_instructions bot_oracle transfer_data signers ixs p ≡ ok q
      → Tallies p q × Shows ixs p q
  unfolding verify_instructions
  verify_instructions-eq_ok [] p {q} h =
      let e : p ≡ q = cc in
      subst (λ r. Tallies p r × Shows [] p r) e (Tallies-refl p, Shows-refl [] p)
  verify_instructions-eq_ok (ix ∷ ixs) p {q} h =
      let (s, g, h₁) = bind-eq_ok _ _ h in
      let (p₁, o, h₂) = bind-eq_ok _ _ h₁ in
      let (p₂, v, h₃) = bind-eq_ok _ _ h₂ in
      let (t₁, w₁) = oracle_part s ix p g o in
      let (t₂, w₂) = sender_part s ix p₁ g v in
      let (t₃, w₃) = verify_instructions-eq_ok ixs p₂ h₃ in
      (
        Tallies-trans p p₁ q t₁ (Tallies-trans p₁ p₂ q t₂ t₃),
        Shows-trans (ix ∷ ixs) p p₂ q
            (Shows-weaken (ix ∷ []) (ix ∷ ixs) p p₂
              (λ s m shown. elim shown [ inl here ↦ inl here | inr none ↦ absurd none ])
              (Shows-trans (ix ∷ []) p p₁ p₂ w₁ w₂))
            (Shows-weaken ixs (ix ∷ ixs) p₂ q (λ s m shown. inr shown) w₃),
      )
