-- ===== src/Outcome/Returns.antt =====
-- Runs that end without a panic, with a rule for each way to build one.
use audius_reward_manager.Prelude.{◌≡◌, ◌≢◌, refl, Bool, true, false, if◌then◌else◌}
use audius_reward_manager.Outcome.Defs.{Result, ok, err, panic, ◌>>=◌, ◌>>◌, return_if, map_err}

-- The run gives a value or an error.
pub record Returns {E A : Type 0} (m : Result E A) : Type 0 where
  pub at : m ≢ panic

module _ {E A : Type 0} where
  pub Returns-ok : (a : A) → Returns {E = E} (ok a)
  Returns-ok a = record { at = λ p. cc }

  pub Returns-err : (e : E) → Returns {A = A} (err e)
  Returns-err e = record { at = λ p. cc }

  pub Returns-if :
      (b : Bool) (m n : Result E A) → Returns m → Returns n → Returns (if b then m else n)
  Returns-if true m n r s = r
  Returns-if false m n r s = s

module _ {E A B : Type 0} where
  pub Returns-bind :
      (m : Result E A) (f : A → Result E B)
      → Returns m
      → ((a : A) → m ≡ ok a → Returns (f a))
      → Returns (m >>= f)
  unfolding ◌>>=◌
  Returns-bind (ok a) f r h = h a refl
  Returns-bind (err e) f r h = Returns-err e
  Returns-bind panic f r h = record { at = λ p. r.at refl }

  -- A step whose success the rest does not use.
  pub Returns-bind_any :
      (m : Result E A) (f : A → Result E B)
      → Returns m
      → ((a : A) → Returns (f a))
      → Returns (m >>= f)
  Returns-bind_any m f r h = Returns-bind m f r (λ a _. h a)

module _ {E B : Type 0} where
  pub Returns-return_if :
      (b : Bool) (e : E) (k : Result E B) → Returns k → Returns (return_if b e >> k)
  unfolding return_if ◌>>=◌
  Returns-return_if true e k r = Returns-err e
  Returns-return_if false e k r = r

module _ {E F A : Type 0} where
  pub Returns-map_err : (f : E → F) (m : Result E A) → Returns m → Returns (map_err f m)
  unfolding map_err
  Returns-map_err f (ok a) r = Returns-ok a
  Returns-map_err f (err e) r = Returns-err (f e)
  Returns-map_err f panic r = record { at = λ p. r.at refl }

pub ruleset returns_rules =
    (Returns-ok, Returns-err, Returns-if, Returns-bind_any, Returns-return_if, Returns-map_err)
