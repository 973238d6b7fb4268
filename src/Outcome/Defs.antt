-- ===== src/Outcome/Defs.antt =====
-- A fallible computation: a value, an error, or a panic (a slice or an index out of range, an
-- `unwrap` of an error).
use audius_reward_manager.Prelude.{Bool, true, false}

pub data Result (E A : Type 0) : Type 0 where
  ok : A → Result E A
  err : E → Result E A
  panic : Result E A

abbrev pub ⊤ : Type 0
⊤ = Unit

-- `?`: an error and a panic go past the rest.
infixl 5 ◌>>=◌ ◌>>◌
unfoldable pub ◌>>=◌ : {E A B : Type 0} → Result E A → (A → Result E B) → Result E B
ok a >>= f = f a
err e >>= f = err e
panic >>= f = panic

abbrev pub ◌>>◌ : {E B : Type 0} → Result E ⊤ → Result E B → Result E B
m >> k = m >>= λ _. k

-- `if c { return Err(e); }`
unfoldable pub return_if : {E : Type 0} → Bool → E → Result E ⊤
return_if true e = err e
return_if false e = ok tt

-- `map_err`, and the conversion that `?` makes by `From`
unfoldable pub map_err : {E F A : Type 0} → (E → F) → Result E A → Result F A
map_err f (ok a) = ok a
map_err f (err e) = err (f e)
map_err f panic = panic
