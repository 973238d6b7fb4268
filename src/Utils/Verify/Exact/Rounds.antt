-- ===== src/Utils/Verify/Exact/Rounds.antt =====
-- The rounds of the verifier of a transfer, where each instruction counts.
use audius_reward_manager.Prelude.{
  ◌+◌, ◌≤◌, ◌≡◌, refl, sym, ap, subst, ◌∙◌, List, [], ◌∷◌, ◌++◌, true, false, some, Bytes, contains,
  contains_cons, lookup, insert, length, arith, inl, inr,
}
use audius_reward_manager.Prelude.Predicates.{IsDistinct}
use audius_reward_manager.Outcome.{ok, bind-eq_ok}
use audius_reward_manager.State.{EthereumAddress, SenderAccount}
use audius_reward_manager.Instructions.{Transfer}
use audius_reward_manager.Runtime.{Instruction}
use audius_reward_manager.Utils.Secp.{get_signer_from_secp_instruction}
use audius_reward_manager.Utils.Secp.Reading.{Attests, get_signer-eq_ok}
use audius_reward_manager.Utils.Verify.{
  Progress, oracle_step, sender_step, verify_instructions, bot_oracle_message, senders_message,
}
use audius_reward_manager.Utils.Verify.Steps.{oracle_step-eq_ok, sender_step-eq_ok}
use audius_reward_manager.Utils.Verify.Ballots.{Ballots, Unmarked, Unmarked-of_insert}

module _ (bot_oracle : SenderAccount) (transfer_data : Transfer) (signers : List EthereumAddress)
    (stranger : contains signers bot_oracle.eth_address ≡ false) where
  abbrev pub message : Bytes
  message = senders_message transfer_data bot_oracle.eth_address

  -- What a round does: it counts a sender, or the oracle, or nobody.
  pub data Round (ix : Instruction) (p q : Progress) : Type 0 where
    sender :
        (s : EthereumAddress)
        → Attests s message ix.bytes
        → lookup s p.checkmap ≡ some false
        → q.successful_verifications ≡ p.successful_verifications + 1
        → q.checkmap ≡ insert s true p.checkmap
        → q.operators ≡ p.operators
        → Round ix p q
    oracle :
        Attests bot_oracle.eth_address (bot_oracle_message transfer_data) ix.bytes
        → contains p.operators bot_oracle.operator ≡ false
        → q.successful_verifications ≡ p.successful_verifications + 1
        → q.checkmap ≡ p.checkmap
        → q.operators ≡ bot_oracle.operator ∷ p.operators
        → Round ix p q
    nobody : q.successful_verifications ≡ p.successful_verifications → Round ix p q

  round :
      (s : EthereumAddress) (ix : Instruction) (p p' : Progress) {q : Progress}
      → get_signer_from_secp_instruction ix.bytes ≡ ok s
      → oracle_step bot_oracle transfer_data s ix p ≡ ok p'
      → sender_step bot_oracle transfer_data signers s ix p' ≡ ok q
      → Round ix p q
  round s ix p p' {q} g h h' = elim (oracle_step-eq_ok bot_oracle transfer_data s ix p g h) [
    | inl o ↦ elim (sender_step-eq_ok bot_oracle transfer_data signers s ix p' g h') [
      | inl v ↦
          let same : s ≡ bot_oracle.eth_address =
            sym (get_signer-eq_ok ix.bytes g) ∙ o.signed.names in
          absurd (cc (stranger, v.is_signer, same))
      | inr (_, e) ↦
          let e' = e ∙ o.after in
          oracle o.signed o.is_new (ap (λ x. x.successful_verifications) e')
            (ap (λ x. x.checkmap) e') (ap (λ x. x.operators) e')
    ]
    | inr (_, e) ↦ elim (sender_step-eq_ok bot_oracle transfer_data signers s ix p' g h') [
      | inl v ↦
          sender s v.signed (subst (λ x. lookup s x.checkmap ≡ some false) e v.unmarked)
            (ap (λ x. x.successful_verifications) v.after
              ∙ ap (λ x. x.successful_verifications + 1) e)
            (ap (λ x. x.checkmap) v.after ∙ ap (λ x. insert s true x.checkmap) e)
            (ap (λ x. x.operators) v.after ∙ ap (λ x. x.operators) e)
      | inr (_, e') ↦ nobody (ap (λ x. x.successful_verifications) (e' ∙ e))
    ]
  ]

  -- The rounds one by one.
  abbrev pub Rounds : List Instruction → Progress → Progress → Type 0
  Rounds [] p q = p ≡ q
  Rounds (ix ∷ ixs) p q = (p' : Progress) × Round ix p p' × Rounds ixs p' q

  pub rounds :
      (ixs : List Instruction) (p : Progress) {q : Progress}
      → verify_instructions bot_oracle transfer_data signers ixs p ≡ ok q
      → Rounds ixs p q
  unfolding verify_instructions
  rounds [] p h = cc
  rounds (ix ∷ ixs) p h =
      let (s, g, h₁) = bind-eq_ok _ _ h in
      let (p₁, o, h₂) = bind-eq_ok _ _ h₁ in
      let (p₂, v, h₃) = bind-eq_ok _ _ h₂ in (p₂, round s ix p p₁ g o v, rounds ixs p₂ h₃)

  counted_le :
      (ix : Instruction) (p q : Progress)
      → Round ix p q
      → q.successful_verifications ≤ p.successful_verifications + 1
  counted_le ix p q (sender s a free n m o) = omega (arith, n)
  counted_le ix p q (oracle a new n m o) = omega (arith, n)
  counted_le ix p q (nobody n) = omega (arith, n)

  -- No round counts twice.
  rounds_le :
      (ixs : List Instruction) (p q : Progress)
      → Rounds ixs p q
      → q.successful_verifications ≤ p.successful_verifications + length ixs
  rounds_le [] p q h = omega (arith, ap (λ (x : Progress). x.successful_verifications) h)
  rounds_le (ix ∷ ixs) p q (p', r, rest) =
      omega (arith, counted_le ix p p' r, rounds_le ixs p' q rest)

  -- Rounds that all count: ballots of different senders, and among them at most one of the oracle.
  pub data Cast (ixs : List Instruction) (p q : Progress) : Type 0 where
    only_senders :
        (order : List EthereumAddress)
        → Ballots order message ixs
        → IsDistinct order
        → Unmarked p.checkmap order
        → q.operators ≡ p.operators
        → Cast ixs p q
    with_oracle :
        (front back : List EthereumAddress) (before after : List Instruction) (ix : Instruction)
        → ixs ≡ before ++ ix ∷ after
        → Ballots front message before
        → Attests bot_oracle.eth_address (bot_oracle_message transfer_data) ix.bytes
        → Ballots back message after
        → IsDistinct (front ++ back)
        → Unmarked p.checkmap (front ++ back)
        → contains p.operators bot_oracle.operator ≡ false
        → Cast ixs p q

  Cast-sender :
      (s : EthereumAddress) (ix : Instruction) (ixs : List Instruction) (p p' q : Progress)
      → Attests s message ix.bytes
      → lookup s p.checkmap ≡ some false
      → p'.checkmap ≡ insert s true p.checkmap
      → p'.operators ≡ p.operators
      → Cast ixs p' q
      → Cast (ix ∷ ixs) p q
  Cast-sender s ix ixs p p' q a free m o (only_senders order cast distinct unmarked same) =
      let (fresh, before) =
        Unmarked-of_insert p.checkmap s order (subst (λ x. Unmarked x order) m unmarked) in
      only_senders (s ∷ order) (a, cast) (fresh, distinct) (free, before) (same ∙ o)
  Cast-sender s ix ixs p p' q a free m o
        (with_oracle front back before after jx e b c d distinct unmarked new) =
      let (fresh, rest) =
        Unmarked-of_insert p.checkmap s (front ++ back)
          (subst (λ x. Unmarked x (front ++ back)) m unmarked) in
      with_oracle (s ∷ front) back (ix ∷ before) after jx (ap (λ l. ix ∷ l) e) (a, b) c d
        (fresh, distinct) (free, rest) (subst (λ x. contains x bot_oracle.operator ≡ false) o new)

  Cast-oracle :
      (ix : Instruction) (ixs : List Instruction) (p p' q : Progress)
      → Attests bot_oracle.eth_address (bot_oracle_message transfer_data) ix.bytes
      → contains p.operators bot_oracle.operator ≡ false
      → p'.checkmap ≡ p.checkmap
      → p'.operators ≡ bot_oracle.operator ∷ p.operators
      → Cast ixs p' q
      → Cast (ix ∷ ixs) p q
  Cast-oracle ix ixs p p' q a new m o (only_senders order cast distinct unmarked same) =
      with_oracle [] order [] ixs ix refl tt a cast distinct
        (subst (λ x. Unmarked x order) m unmarked) new
  Cast-oracle ix ixs p p' q a new m o
        (with_oracle front back before after jx e b c d distinct unmarked again) =
      absurd (
        cc (
          subst (λ x. contains x bot_oracle.operator ≡ false) o again,
          contains_cons bot_oracle.operator p.operators,
        ))

  pub Cast-of_rounds :
      (ixs : List Instruction) (p q : Progress)
      → Rounds ixs p q
      → q.successful_verifications ≡ p.successful_verifications + length ixs
      → Cast ixs p q
  Cast-of_rounds [] p q h n = only_senders [] tt tt tt (sym (ap (λ (x : Progress). x.operators) h))
  Cast-of_rounds (ix ∷ ixs) p q (p', sender s a free m c o, rest) n =
      Cast-sender s ix ixs p p' q a free c o (Cast-of_rounds ixs p' q rest (omega (arith, m, n)))
  Cast-of_rounds (ix ∷ ixs) p q (p', oracle a new m c o, rest) n =
      Cast-oracle ix ixs p p' q a new c o (Cast-of_rounds ixs p' q rest (omega (arith, m, n)))
  Cast-of_rounds (ix ∷ ixs) p q (p', nobody m, rest) n =
      absurd (omega (arith, m, n, rounds_le ixs p' q rest))
