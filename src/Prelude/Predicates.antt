-- ===== src/Prelude/Predicates.antt =====
-- Predicates on every element of a list, and on distinct elements.
use mathlib.Core.Path.{◌≡◌, refl}
use mathlib.Core.Bool.{false}
use mathlib.Core.List.{List, [], ◌∷◌, ◌++◌}
use audius_reward_manager.Prelude.ByteTests.{Bytes, contains, ==_iff}
use native.Mathlib.Omega.{arith}

abbrev pub All {ℓ κ} : {A : Type ℓ} → (A → Type κ) → List A → Type κ
All P [] = Unit
All P (x ∷ xs) = P x × All P xs

pub All-append {ℓ κ} :
    {A : Type ℓ} (P : A → Type κ) (front back : List A)
    → All P front
    → All P back
    → All P (front ++ back)
All-append P [] back _ at_back = at_back
All-append P (x ∷ front) back (at_x, at_front) at_back =
    (at_x, All-append P front back at_front at_back)

pub All-map {ℓ κ κ'} :
    {A : Type ℓ} {P : A → Type κ} {Q : A → Type κ'}
    → ((x : A) → P x → Q x)
    → (xs : List A) → All P xs
    → All Q xs
All-map f [] _ = tt
All-map f (x ∷ xs) (at_x, at_xs) = (f x at_x, All-map f xs at_xs)

-- No byte string stands twice.
abbrev pub IsDistinct : List Bytes → Type 0
IsDistinct [] = Unit
IsDistinct (x ∷ xs) = (contains xs x ≡ false) × IsDistinct xs

-- What a concatenation does not contain.
pub fresh_behind :
    (s : Bytes) (front back : List Bytes)
    → contains (front ++ back) s ≡ false
    → contains back s ≡ false
unfolding contains
fresh_behind s [] back h = h
fresh_behind s (t ∷ front) back h = fresh_behind s front back (ground arith)

fresh_before :
    (s : Bytes) (front back : List Bytes)
    → contains (front ++ back) s ≡ false
    → contains front s ≡ false
unfolding contains
fresh_before s [] back h = refl
fresh_before s (t ∷ front) back h = ground (arith, fresh_before s front back)

-- Both parts of a list without repetitions have none.
pub IsDistinct-before : (front back : List Bytes) → IsDistinct (front ++ back) → IsDistinct front
IsDistinct-before [] back distinct = tt
IsDistinct-before (s ∷ front) back (fresh, distinct) =
    (fresh_before s front back fresh, IsDistinct-before front back distinct)

pub IsDistinct-behind : (front back : List Bytes) → IsDistinct (front ++ back) → IsDistinct back
IsDistinct-behind [] back distinct = distinct
IsDistinct-behind (s ∷ front) back (fresh, distinct) = IsDistinct-behind front back distinct

-- In a list without repetitions, an element stands nowhere before itself.
pub IsDistinct-middle :
    (front back : List Bytes) (s : Bytes)
    → IsDistinct (front ++ s ∷ back)
    → contains front s ≡ false
unfolding contains
IsDistinct-middle [] back s distinct = refl
IsDistinct-middle (t ∷ front) back s (fresh, distinct) = ground (
  arith,
  IsDistinct-middle front back s distinct,
  fresh_behind t front (s ∷ back) fresh,
  ==_iff s t,
  ==_iff t s,
)
