-- ===== src/Processor/Accounts/Writes.antt =====
-- What a write to an account and a transfer of all lamports do, and when they fail.
use mathlib.Core.List.{append-nil}
use audius_reward_manager.Prelude.{
  false, ℕ, zero, suc, refl, ==_refl, ◌∷◌, ◌++◌, drop, ltb, ◌∙◌, ◌+◌, ◌%◌, ◌^◌, ◌≤◌, ◌≡◌, ◌≢◌, sym,
  ap, [], Bytes, ◌==◌, ==_iff, length, arith, Bool-cases, inl, inr, if◌then◌else◌,
}
use audius_reward_manager.Outcome.{ok, return_if-eq_ok, ok-injective}
use audius_reward_manager.Error.{account_borrow_failed}
use audius_reward_manager.State.{Pubkey}
use audius_reward_manager.Runtime.{Account, AccountInfo, Ledger, Env, update}
use audius_reward_manager.Processor.Accounts.{write_data, transfer_all}

pub ==_ne : (a b : Pubkey) → a ≢ b → (a == b) ≡ false
==_ne a b h = elim (Bool-cases (a == b)) [
  | inl same ↦ absurd (h ((==_iff a b).0 same))
  | inr differs ↦ differs
]

-- The account at `k` once `v` is written.
abbrev pub written : Env → Pubkey → Bytes → Ledger → Account
written env k v w = record (w k) { bytes = v ++ drop (length v) (w k).bytes }

pub write_data-eq_ok :
    (env : Env) (k : Pubkey) (v : Bytes) (w : Ledger) {w' : Ledger}
    → write_data env k v w ≡ ok w'
    → (length v ≤ length (w k).bytes) × (w' ≡ λ j. if k == j then written env k v w else w j)
unfolding write_data update
write_data-eq_ok env k v w {w'} h = elim (Bool-cases (ltb (length (w k).bytes) (length v))) [
  | inl short ↦ absurd (ground arith)
  | inr fits ↦ (ground arith, sym (ok-injective (rw fits at h)))
]

-- A write that fits is made, and changes no other account.
pub write_data_fits :
    (env : Env) (k : Pubkey) (v : Bytes) (w : Ledger)
    → length v ≤ length (w k).bytes
    → (w' : Ledger) × (write_data env k v w ≡ ok w') × ((j : Pubkey) → k ≢ j → w' j ≡ w j)
unfolding write_data update
write_data_fits env k v w h =
    let fits : ltb (length (w k).bytes) (length v) ≡ false = ground (arith, h) in
    (
      λ j. if k == j then written env k v w else w j,
      rw fits,
      λ j ne. elim (Bool-cases (k == j)) [
        | inl same ↦ absurd (ne ((==_iff k j).0 same))
        | inr differs ↦ rw differs
      ],
    )

drop-all : (n : ℕ) (xs : Bytes) → length xs ≡ n → drop n xs ≡ []
unfolding drop
drop-all zero [] h = refl
drop-all zero (x ∷ xs) h = absurd (omega arith)
drop-all (suc n) [] h = absurd (omega arith)
drop-all (suc n) (x ∷ xs) h = drop-all n xs (omega arith)

-- A write of as many bytes as there are replaces the data, and leaves the owner.
pub write_data_whole :
    (env : Env) (k : Pubkey) (v : Bytes) (w : Ledger) {w' : Ledger}
    → length (w k).bytes ≡ length v
    → write_data env k v w ≡ ok w'
    → ((w' k).owner ≡ (w k).owner) × ((w' k).bytes ≡ v)
write_data_whole env k v w size h =
    let at_k = ap (λ (f : Ledger). f k) (write_data-eq_ok env k v w h).1 in
    (
      rw at_k (rw (==_refl k)),
      rw at_k (rw (==_refl k) (rw (drop-all (length v) (w k).bytes size) (append-nil v))),
    )

-- The accounts after a transfer of all lamports.
pub transfer_all-eq_ok :
    (source receiver : AccountInfo) (w : Ledger) {w' : Ledger}
    → transfer_all source receiver w ≡ ok w'
    → (source.key ≢ receiver.key)
      × (w' ≡ λ j.
          if source.key == j
          then record (w source.key) { lamports = 0 }
          else if receiver.key == j
          then record (w receiver.key) {
            lamports = ((w receiver.key).lamports + (w source.key).lamports) % 2 ^ 64;
          }
          else w j)
unfolding transfer_all update
transfer_all-eq_ok source receiver w {w'} h =
    let (distinct, h₁) = return_if-eq_ok (source.key == receiver.key) account_borrow_failed _ h in
    (λ p. cc ((==_iff source.key receiver.key).1 p), sym (ok-injective h₁))

-- A write to another account leaves this one.
pub write_data_other :
    (env : Env) (j k : Pubkey) (v : Bytes) (w : Ledger) {w' : Ledger}
    → k ≢ j
    → write_data env k v w ≡ ok w'
    → w' j ≡ w j
write_data_other env j k v w ne h =
    ap (λ (f : Ledger). f j) (write_data-eq_ok env k v w h).1 ∙ rw (==_ne k j ne)
