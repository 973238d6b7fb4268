-- ===== src/Cli/Commands/Signed.antt =====
-- cli/src/utils.rs and cli/src/main.rs: what a command that succeeds has expected and signed.
use audius_reward_manager.Prelude.{Bool, true, false, if◌then◌else◌, ℕ, ◌≡◌, some}
use audius_reward_manager.Outcome.{ok-injective, Result, ok, err, panic, bind-eq_ok}
use audius_reward_manager.State.{Pubkey}
use audius_reward_manager.Runtime.{Env}
use audius_reward_manager.Cli.Client.{Error, Client}
use audius_reward_manager.Cli.Transaction.{Config, Transaction, OnchainTransaction, sign}
use audius_reward_manager.Cli.Commands.{expect}

pub expect-eq_ok : {A : Type 0} (m : Result Error A) {a : A} → expect m ≡ ok a → m ≡ ok a
unfolding expect
expect-eq_ok (ok b) h = h
expect-eq_ok (err e) h = cc
expect-eq_ok panic h = cc

pub if-eq_ok :
    {A : Type 0} (c : Bool) {a b : A}
    → ◌≡◌ {A = Result Error A} (if c then ok a else panic) (ok b)
    → a ≡ b
if-eq_ok true h = ok-injective h
if-eq_ok false h = cc

module _ (env : Env) (client : Client) (config : Config) (id : Pubkey) where
  -- A signed transaction has the instructions and the signers that it was built from, and the fee
  -- payer pays.
  pub sign-eq_ok :
      (t : Transaction) (additional : ℕ) {tx : OnchainTransaction}
      → sign client config t additional ≡ ok (some tx)
      → (tx.instructions ≡ t.instructions)
        × (tx.signers ≡ t.signers)
        × (tx.payer ≡ config.fee_payer)
  unfolding sign
  sign-eq_ok t additional {tx} h =
      let (_, _, h₁) = bind-eq_ok client.get_recent_blockhash _ h in
      let (_, _, h₂) = bind-eq_ok _ _ h₁ in
      let signed = if-eq_ok (client.can_sign t.instructions config.fee_payer t.signers) h₂ in
      (cc, cc, cc)
