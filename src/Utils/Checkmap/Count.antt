-- ===== src/Utils/Checkmap/Count.antt =====
-- How many signers a checkmap has marked: the measure by which a vote is counted.
use audius_reward_manager.Prelude.{
  ℕ, suc, ◌+◌, ◌≤◌, ◌≡◌, refl, List, [], ◌∷◌, Bool, true, false, none, some, Bytes, contains, Map,
  lookup, insert, lookup-insert, length, arith, if◌then◌else◌,
}
use audius_reward_manager.Outcome.{ok}
use audius_reward_manager.Utils.Checkmap.{fill_checkmap, vec_into_checkmap, check_signer}

abbrev pub trues : Map Bool → ℕ
trues [] = 0
trues ((k, true) ∷ m) = suc (trues m)
trues ((k, false) ∷ m) = trues m

pub trues-le-length : (m : Map Bool) → trues m ≤ length m
trues-le-length [] = omega arith
trues-le-length ((k, true) ∷ m) = omega (arith, trues-le-length m)
trues-le-length ((k, false) ∷ m) = omega (arith, trues-le-length m)

-- Marking an entry that was not marked adds one, and no entry.
pub trues-insert :
    (s : Bytes) (m : Map Bool)
    → lookup s m ≡ some false
    → (trues (insert s true m) ≡ suc (trues m)) × (length (insert s true m) ≡ length m)
unfolding lookup insert
trues-insert s [] h = cc
trues-insert s ((k, true) ∷ m) h = ground (arith, trues-insert s m)
trues-insert s ((k, false) ∷ m) h = ground (arith, trues-insert s m)

-- Where every entry is marked, a lookup finds a mark.
pub full-lookup :
    (s : Bytes) (m : Map Bool) {b : Bool} → trues m ≡ length m → lookup s m ≡ some b → b ≡ true
unfolding lookup
full-lookup s [] e h = cc
full-lookup s ((k, true) ∷ m) {b} e h = ground (arith, full-lookup s m {b = b})
full-lookup s ((k, false) ∷ m) e h = absurd (omega (arith, trues-le-length m))

length-insert-le : (s : Bytes) (b : Bool) (m : Map Bool) → length (insert s b m) ≤ suc (length m)
unfolding insert
length-insert-le s b [] = omega arith
length-insert-le s b (e ∷ m) = ground (arith, length-insert-le s b m)

trues-insert-false : (s : Bytes) (m : Map Bool) → trues m ≡ 0 → trues (insert s false m) ≡ 0
unfolding insert
trues-insert-false s [] h = refl
trues-insert-false s ((k, true) ∷ m) h = absurd (omega arith)
trues-insert-false s ((k, false) ∷ m) h = ground (arith, trues-insert-false s m)

fill_lem :
    (items : List Bytes) (m : Map Bool)
    → trues m ≡ 0
    → (trues (fill_checkmap items m) ≡ 0)
      × (length (fill_checkmap items m) ≤ length items + length m)
unfolding fill_checkmap
fill_lem [] m h = (h, omega arith)
fill_lem (s ∷ items) m h =
    let ih = fill_lem items (insert s false m) (trues-insert-false s m h) in
    (ih.0, omega (arith, ih.1, length-insert-le s false m))

lookup-fill :
    (s : Bytes) (items : List Bytes) (m : Map Bool)
    → lookup s (fill_checkmap items m) ≡ (if contains items s then some false else lookup s m)
unfolding fill_checkmap contains
lookup-fill s [] m = refl
lookup-fill s (x ∷ items) m =
    ground (arith, lookup-fill s items (insert x false m), lookup-insert x s false m)

-- A fresh checkmap has no mark and at most one entry for each signer.
pub vec_into_checkmap_fresh :
    (signers : List Bytes)
    → (trues (vec_into_checkmap signers) ≡ 0)
      × (length (vec_into_checkmap signers) ≤ length signers)
unfolding vec_into_checkmap
vec_into_checkmap_fresh signers = let l = fill_lem signers [] refl in (l.0, omega (arith, l.1))

-- A fresh checkmap holds the signers, unmarked, and nobody else.
pub lookup-vec_into_checkmap :
    (s : Bytes) (signers : List Bytes)
    → lookup s (vec_into_checkmap signers) ≡ (if contains signers s then some false else none)
unfolding vec_into_checkmap lookup
lookup-vec_into_checkmap s signers = lookup-fill s signers []

-- A signer is accepted if it was in the map and not marked, and is marked then.
pub check_signer-eq_ok :
    (m : Map Bool) (s : Bytes) {m' : Map Bool}
    → check_signer m s ≡ ok m'
    → (lookup s m ≡ some false) × (m' ≡ insert s true m)
unfolding check_signer
check_signer-eq_ok m s h = ground arith
