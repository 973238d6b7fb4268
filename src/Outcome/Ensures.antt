-- ===== src/Outcome/Ensures.antt =====
-- Partial correctness of a fallible run, with a rule for each way to build one.
use audius_reward_manager.Prelude.{◌≡◌, refl, Bool, true, false}
use audius_reward_manager.Outcome.Defs.{Result, ok, err, panic, ◌>>=◌, ◌>>◌, return_if}

-- If the run gives a value, the value has the property.
pub record Ensures {E A : Type 0} (P : A → Type 0) (m : Result E A) : Type 0 where
  pub at : (a : A) → m ≡ ok a → P a

module _ {E A B : Type 0} {P : B → Type 0} where
  pub Ensures-bind :
      (m : Result E A) (f : A → Result E B)
      → ((a : A) → m ≡ ok a → Ensures P (f a))
      → Ensures P (m >>= f)
  unfolding ◌>>=◌
  Ensures-bind (ok a) f h = h a refl
  Ensures-bind (err e) f h = record { at = λ b p. cc }
  Ensures-bind panic f h = record { at = λ b p. cc }

module _ {E B : Type 0} {P : B → Type 0} where
  pub Ensures-return_if :
      (b : Bool) (e : E) (k : Result E B) → Ensures P k → Ensures P (return_if b e >> k)
  unfolding return_if ◌>>=◌
  Ensures-return_if true e k h = record { at = λ b p. cc }
  Ensures-return_if false e k h = h

-- Where the test fails, the rest may use it.
module _ {E B : Type 0} {P : B → Type 0} where
  pub Ensures-return_if-false :
      (b : Bool) (e : E) (k : Result E B)
      → (b ≡ false → Ensures P k)
      → Ensures P (return_if b e >> k)
  unfolding return_if ◌>>=◌
  Ensures-return_if-false true e k h = record { at = λ b p. cc }
  Ensures-return_if-false false e k h = h refl

-- A step whose value and success the rest does not use.
module _ {E A B : Type 0} {P : B → Type 0} where
  pub Ensures-bind_any :
      (m : Result E A) (f : A → Result E B) → ((a : A) → Ensures P (f a)) → Ensures P (m >>= f)
  Ensures-bind_any m f h = Ensures-bind m f (λ a _. h a)

pub ruleset ensures_rules = (Ensures-return_if, Ensures-bind_any)
