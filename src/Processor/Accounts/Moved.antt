-- ===== src/Processor/Accounts/Moved.antt =====
-- Where the lamports go in `transfer_all`.
use audius_reward_manager.Prelude.{
  ◌≤◌, ◌∙◌, ◌+◌, ◌≡◌, ◌≢◌, sym, ap, subst, ◌==◌, ==_iff, ==_refl, arith, Bool-cases, inl, inr,
}
use audius_reward_manager.Outcome.{ok}
use audius_reward_manager.State.{Pubkey}
use audius_reward_manager.Runtime.{AccountInfo, Ledger}
use audius_reward_manager.Runtime.Laws.{Keeps, IsSolvent}
use audius_reward_manager.Processor.Accounts.{transfer_all}
use audius_reward_manager.Processor.Accounts.Writes.{==_ne, transfer_all-eq_ok}

-- All lamports of `s` are now at `r`; nothing else has changed.
pub record Moved (s r : Pubkey) (w w' : Ledger) : Type 0 where
  pub distinct : s ≢ r
  pub emptied : (w' s).lamports ≡ 0
  pub refunded : (w' r).lamports ≡ (w r).lamports + (w s).lamports
  pub others : (j : Pubkey) → j ≢ s → j ≢ r → w' j ≡ w j
  pub same_bytes : (j : Pubkey) → (w' j).bytes ≡ (w j).bytes
  pub same_owner : (j : Pubkey) → (w' j).owner ≡ (w j).owner

pub transfer_all-Moved :
    (source receiver : AccountInfo) (w : Ledger) {w' : Ledger}
    → IsSolvent w
    → transfer_all source receiver w ≡ ok w'
    → Moved source.key receiver.key w w'
transfer_all-Moved source receiver w {w'} solvent h =
    let s = source.key in
    let r = receiver.key in
    let (ne, e) = transfer_all-eq_ok source receiver w h in
    let at = λ (j : Pubkey). ap (λ (f : Ledger). f j) e in
    let room = solvent r s (λ p. ne (sym p)) in
    record {
      distinct = ne;
      emptied = rw (at s) (rw (==_refl s));
      refunded = rw (at r) (rw (==_ne s r ne) (rw (==_refl r) (omega arith)));
      others = λ j p q. at j ∙ rw (==_ne s j (λ x. p (sym x))) (rw (==_ne r j (λ x. q (sym x))));
      same_bytes = λ j. elim (Bool-cases (s == j)) [
        | inl p ↦ rw (at j) (rw p (ap (λ (x : Pubkey). (w x).bytes) ((==_iff s j).0 p)))
        | inr p ↦ elim (Bool-cases (r == j)) [
          | inl q ↦ rw (at j) (rw p (rw q (ap (λ (x : Pubkey). (w x).bytes) ((==_iff r j).0 q))))
          | inr q ↦ rw (at j) (rw p (rw q))
        ]
      ];
      same_owner = λ j. elim (Bool-cases (s == j)) [
        | inl p ↦ rw (at j) (rw p (ap (λ (x : Pubkey). (w x).owner) ((==_iff s j).0 p)))
        | inr p ↦ elim (Bool-cases (r == j)) [
          | inl q ↦ rw (at j) (rw p (rw q (ap (λ (x : Pubkey). (w x).owner) ((==_iff r j).0 q))))
          | inr q ↦ rw (at j) (rw p (rw q))
        ]
      ];
    }

-- Only the source loses lamports.
pub Moved-Keeps : (s r j : Pubkey) (w w' : Ledger) → Moved s r w w' → j ≢ s → Keeps (w j) (w' j)
Moved-Keeps s r j w w' m ne = record {
  same_owner = m.same_owner j;
  same_bytes = m.same_bytes j;
  not_debited = elim (Bool-cases (r == j)) [
    | inl same ↦
        subst (λ k. (w k).lamports ≤ (w' k).lamports) ((==_iff r j).0 same)
          (omega (arith, m.refunded))
    | inr differs ↦
        let e = m.others j ne (λ q. cc (differs, (==_iff r j).1 (sym q))) in
        omega (arith, ap (λ a. a.lamports) e)
  ];
}
