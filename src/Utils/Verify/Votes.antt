-- ===== src/Utils/Verify/Votes.antt =====
-- What the verifier of `AddSender` has established when it accepts.
use audius_reward_manager.Prelude.{
  ◌+◌, ◌≡◌, refl, subst, ◌∙◌, ◌⊎◌, List, [], ◌∷◌, Bool, true, false, some, Bytes, ◌==◌, ==_iff, Map,
  lookup, insert, lookup-insert, length, arith, inl, inr, if◌then◌else◌, Bool-cases,
}
use audius_reward_manager.Outcome.{ok, bind-eq_ok}
use audius_reward_manager.State.{Pubkey, EthereumAddress}
use audius_reward_manager.Runtime.{Instruction}
use audius_reward_manager.Utils.Secp.Reading.{SomeAttests, Attests, Attests-of_reads}
use audius_reward_manager.Utils.Checkmap.{vec_into_checkmap}
use audius_reward_manager.Utils.Checkmap.Count.{
  trues, trues-le-length, full-lookup, vec_into_checkmap_fresh, lookup-vec_into_checkmap,
  trues-insert, check_signer-eq_ok,
}
use audius_reward_manager.Utils.Verify.{
  verify_votes, build_verify_secp_add_sender, add_sender_message,
}
use audius_reward_manager.Utils.Verify.Sound.{AllAttest}

module _ (reward_manager_key : Pubkey) (new_sender : EthereumAddress) where
  -- The message that the senders sign.
  abbrev vote : Bytes
  vote = add_sender_message reward_manager_key new_sender

  -- From map `c` to map `d`: one mark for each instruction, which names the signer and carries the
  -- message; no entry comes or goes.
  record Votes (ixs : List Instruction) (c d : Map Bool) : Type 0 where
    counted : trues d ≡ trues c + length ixs
    same_size : length d ≡ length c
    shown : (s : Bytes) → lookup s d ≡ some true → (lookup s c ≡ some true) ⊎ SomeAttests s vote ixs
    present : (s : Bytes) (b : Bool) → lookup s c ≡ some b → (b' : Bool) × (lookup s d ≡ some b')

  Votes-cons :
      (ix : Instruction) (ixs : List Instruction) (s : Bytes) (c d : Map Bool)
      → Attests s vote ix.bytes
      → lookup s c ≡ some false
      → Votes ixs (insert s true c) d
      → Votes (ix ∷ ixs) c d
  Votes-cons ix ixs s c d a free r = record {
    counted = omega (arith, (trues-insert s c free).0, r.counted);
    same_size = r.same_size ∙ (trues-insert s c free).1;
    shown = λ t h. elim (r.shown t h) [
      | inl marked ↦ elim (Bool-cases (s == t)) [
        | inl same ↦ inr (inl (subst (λ x. Attests x vote ix.bytes) ((==_iff s t).0 same) a))
        | inr differs ↦ inl (ground (arith, lookup-insert s t true c))
      ]
      | inr later ↦ inr (inr later)
    ];
    present = λ t b h.
        r.present t (if s == t then true else b) (ground (arith, lookup-insert s t true c));
  }

  verify_votes-eq_ok :
      (ixs : List Instruction) (c : Map Bool) {d : Map Bool}
      → verify_votes reward_manager_key new_sender ixs c ≡ ok d
      → Votes ixs c d
  unfolding verify_votes
  verify_votes-eq_ok [] c {d} h =
      let e : c ≡ d = cc in
      subst (λ x. Votes [] c x) e
        (record {
          counted = omega arith;
          same_size = refl;
          shown = λ s p. inl p;
          present = λ s b p. (b, p);
        })
  verify_votes-eq_ok (ix ∷ ixs) c {d} h =
      let (s, g, h₁) = bind-eq_ok _ _ h in
      let (c', k, h₂) = bind-eq_ok _ _ h₁ in
      let (_, v, h₃) = bind-eq_ok _ _ h₂ in
      let (free, e) = check_signer-eq_ok c s k in
      Votes-cons ix ixs s c d (Attests-of_reads s vote ix.bytes g v) free
        (verify_votes-eq_ok ixs (insert s true c) (rw (← e) h₃))

  -- If there are as many instructions as senders and the verifier of `AddSender` accepts, each of the
  -- senders is named as the signer of the message by one of the instructions.
  pub build_verify_secp_add_sender_sound :
      (ixs : List Instruction) (signers operators : List EthereumAddress)
      → length ixs ≡ length signers
      → build_verify_secp_add_sender reward_manager_key new_sender ixs signers operators ≡ ok tt
      → AllAttest signers vote ixs
  unfolding build_verify_secp_add_sender
  build_verify_secp_add_sender_sound ixs signers operators n h s member =
      let (d, run, _) = bind-eq_ok _ _ h in
      let v = verify_votes-eq_ok ixs (vec_into_checkmap signers) run in
      let l = lookup-vec_into_checkmap s signers in
      let full : trues d ≡ length d =
        omega (arith, vec_into_checkmap_fresh signers, trues-le-length d, v.counted, v.same_size) in
      let (b, e) = v.present s false (l ∙ rw member) in
      let marked : lookup s d ≡ some true =
        subst (λ x. lookup s d ≡ some x) (full-lookup s d full e) e in
      elim (v.shown s marked) [ inl old ↦ absurd (ground arith) | inr shown ↦ shown ]
