-- ===== src/Outcome/Inversion.antt =====
-- What a successful run went through.
use audius_reward_manager.Prelude.{◌≡◌, refl, Bool, true, false}
use audius_reward_manager.Outcome.Defs.{Result, ok, err, panic, ◌>>=◌, ◌>>◌, return_if, map_err}

module _ {E F A : Type 0} where
  pub map_err-eq_ok : (f : E → F) (m : Result E A) {a : A} → map_err f m ≡ ok a → m ≡ ok a
  unfolding map_err
  map_err-eq_ok f (ok b) h = cc
  map_err-eq_ok f (err e) h = cc
  map_err-eq_ok f panic h = cc

module _ {E A B : Type 0} where
  pub bind-eq_ok :
      (m : Result E A) (f : A → Result E B) {b : B}
      → (m >>= f) ≡ ok b
      → (a : A) × (m ≡ ok a) × (f a ≡ ok b)
  unfolding ◌>>=◌
  bind-eq_ok (ok a) f h = (a, refl, h)
  bind-eq_ok (err e) f h = cc
  bind-eq_ok panic f h = cc

module _ {E B : Type 0} where
  pub return_if-eq_ok :
      (b : Bool) (e : E) (k : Result E B) {r : B}
      → (return_if b e >> k) ≡ ok r
      → (b ≡ false) × (k ≡ ok r)
  unfolding return_if ◌>>=◌
  return_if-eq_ok true e k h = cc
  return_if-eq_ok false e k h = (refl, h)

module _ {E A : Type 0} where
  pub ok-injective : {a b : A} → ◌≡◌ {A = Result E A} (ok a) (ok b) → a ≡ b
  ok-injective h = cc

-- A step that succeeds hands its value to the rest.
module _ {E A B : Type 0} where
  pub bind-ok : {m : Result E A} {a : A} (f : A → Result E B) → m ≡ ok a → (m >>= f) ≡ f a
  unfolding ◌>>=◌
  bind-ok f e = rw e

module _ {E A B C : Type 0} where
  pub bind_assoc :
      (m : Result E A) (f : A → Result E B) (g : B → Result E C)
      → ((m >>= f) >>= g) ≡ (m >>= λ a. f a >>= g)
  unfolding ◌>>=◌
  bind_assoc (ok a) f g = refl
  bind_assoc (err e) f g = refl
  bind_assoc panic f g = refl

-- A step before two runs that agree.
module _ {E A B : Type 0} where
  pub bind-cong :
      (m : Result E A) {f g : A → Result E B} → ((a : A) → f a ≡ g a) → (m >>= f) ≡ (m >>= g)
  unfolding ◌>>=◌
  bind-cong (ok a) h = h a
  bind-cong (err e) h = refl
  bind-cong panic h = refl
