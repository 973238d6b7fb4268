-- ===== src/Utils/Verify/Ballots.antt =====
-- Ballots that were signed as they should be, and a checkmap that has no mark for them yet.
use audius_reward_manager.Prelude.{
  refl, ◌≡◌, List, [], ◌∷◌, ◌++◌, Bool, true, false, some, Bytes, ==_iff, ==_refl, contains,
  contains_cons, Map, lookup, insert, lookup-insert, arith,
}
use audius_reward_manager.Prelude.Predicates.{fresh_behind, All, IsDistinct}
use audius_reward_manager.Outcome.{ok}
use audius_reward_manager.Runtime.{Instruction}
use audius_reward_manager.Utils.Secp.Reading.{Attests}
use audius_reward_manager.Utils.Checkmap.{vec_into_checkmap, check_signer}
use audius_reward_manager.Utils.Checkmap.Count.{lookup-vec_into_checkmap}

-- Each of the instructions carries the message, signed by the address at its place.
abbrev pub Ballots : List Bytes → Bytes → List Instruction → Type 0
Ballots [] message [] = Unit
Ballots [] message (ix ∷ ixs) = ⊥
Ballots (s ∷ order) message [] = ⊥
Ballots (s ∷ order) message (ix ∷ ixs) = Attests s message ix.bytes × Ballots order message ixs

-- None of the addresses is marked yet.
abbrev pub Unmarked : Map Bool → List Bytes → Type 0
Unmarked m order = All (λ s. lookup s m ≡ some false) order

-- All of the addresses are signers.
abbrev pub Within : List Bytes → List Bytes → Type 0
Within signers order = All (λ s. contains signers s ≡ true) order

Within-cons :
    (s : Bytes) (signers order : List Bytes) → Within signers order → Within (s ∷ signers) order
unfolding contains
Within-cons s signers [] w = tt
Within-cons s signers (t ∷ order) w = (ground (arith, w.0), Within-cons s signers order w.1)

-- The signers are among themselves.
pub Within-self : (signers : List Bytes) → Within signers signers
Within-self [] = tt
Within-self (s ∷ signers) =
    (contains_cons s signers, Within-cons s signers signers (Within-self signers))

pub check_signer-unmarked :
    (m : Map Bool) (s : Bytes) → lookup s m ≡ some false → check_signer m s ≡ ok (insert s true m)
unfolding check_signer
check_signer-unmarked m s h = rw h

-- A mark for another address leaves the rest unmarked.
pub Unmarked-insert :
    (m : Map Bool) (s : Bytes) (order : List Bytes)
    → contains order s ≡ false
    → Unmarked m order
    → Unmarked (insert s true m) order
unfolding contains
Unmarked-insert m s [] fresh free = tt
Unmarked-insert m s (t ∷ order) fresh free = (
  ground (arith, lookup-insert s t true m, ==_iff s t, ==_iff t s, ==_refl t),
  Unmarked-insert m s order (ground arith) free.1,
)

pub Unmarked-vec_into_checkmap :
    (signers order : List Bytes) → Within signers order → Unmarked (vec_into_checkmap signers) order
Unmarked-vec_into_checkmap signers [] within = tt
Unmarked-vec_into_checkmap signers (s ∷ order) within = (
  ground (arith, lookup-vec_into_checkmap s signers),
  Unmarked-vec_into_checkmap signers order within.1,
)

-- The checkmap with a mark for each address.
abbrev pub mark_all : List Bytes → Map Bool → Map Bool
mark_all [] m = m
mark_all (s ∷ order) m = mark_all order (insert s true m)

-- In a list without repetitions, what stands behind is not among what stands before.
pub Unmarked-mark_all :
    (front back : List Bytes) (m : Map Bool)
    → IsDistinct (front ++ back)
    → Unmarked m back
    → Unmarked (mark_all front m) back
Unmarked-mark_all [] back m distinct free = free
Unmarked-mark_all (s ∷ front) back m (fresh, distinct) free =
    Unmarked-mark_all front back (insert s true m) distinct
      (Unmarked-insert m s back (fresh_behind s front back fresh) free)

-- What is unmarked with a mark for `s` was so before, and does not hold `s`.
pub Unmarked-of_insert :
    (m : Map Bool) (s : Bytes) (order : List Bytes)
    → Unmarked (insert s true m) order
    → (contains order s ≡ false) × Unmarked m order
unfolding contains
Unmarked-of_insert m s [] free = (refl, tt)
Unmarked-of_insert m s (t ∷ order) (free, rest) =
    let (fresh, before) = Unmarked-of_insert m s order rest in
    (
      ground (arith, lookup-insert s t true m, ==_iff s t, ==_iff t s, fresh),
      (ground (arith, lookup-insert s t true m), before),
    )

-- What is unmarked in a fresh checkmap is a signer.
pub Unmarked-Within :
    (signers order : List Bytes) → Unmarked (vec_into_checkmap signers) order → Within signers order
Unmarked-Within signers [] free = tt
Unmarked-Within signers (s ∷ order) (free, rest) =
    (ground (arith, lookup-vec_into_checkmap s signers), Unmarked-Within signers order rest)
