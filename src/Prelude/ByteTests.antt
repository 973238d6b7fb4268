-- ===== src/Prelude/ByteTests.antt =====
-- Byte strings, compared as the source compares slices and keys; and maps and sets keyed by them.
use Prim.Native.Nat.{ℕ}
use mathlib.Core.Path.{◌≡◌, refl}
use mathlib.Core.Logic.{◌↔◌}
use mathlib.Core.Bool.{Bool, true, false, not, ◌&&◌, ◌||◌}
use mathlib.Core.Option.{Option, none, some}
use mathlib.Core.List.{List, [], ◌∷◌}
use native.Mathlib.Omega.{arith}
use audius_reward_manager.Prelude.Tests.{eqb, if◌then◌else◌}

-- `[u8; n]`, `&[u8]` and `Vec<u8>`; each element is a byte.
abbrev pub Bytes : Type 0
Bytes = List ℕ

infix 50 ◌==◌
unfoldable pub ◌==◌ : Bytes → Bytes → Bool
[] == [] = true
[] == (y ∷ ys) = false
(x ∷ xs) == [] = false
(x ∷ xs) == (y ∷ ys) = eqb x y && xs == ys

pub ==_iff : (a b : Bytes) → ((a == b) ≡ true) ↔ (a ≡ b)
unfolding ◌==◌
==_iff [] [] = ground arith
==_iff [] (y ∷ ys) = ground arith
==_iff (x ∷ xs) [] = ground arith
==_iff (x ∷ xs) (y ∷ ys) = ground (arith, ==_iff xs ys)

pub ==_refl : (a : Bytes) → (a == a) ≡ true
==_refl a = (==_iff a a).1 refl

-- `Vec::contains` and `BTreeSet::contains`
unfoldable pub contains : List Bytes → Bytes → Bool
contains [] a = false
contains (x ∷ xs) a = x == a || contains xs a

pub contains_cons : (x : Bytes) (xs : List Bytes) → contains (x ∷ xs) x ≡ true
unfolding contains
contains_cons x xs = ground (arith, ==_iff x x)

-- `BTreeSet::insert`: whether the element is new, and the set with it.
unfoldable pub set_insert : List Bytes → Bytes → Bool × List Bytes
set_insert xs a = if contains xs a then (false, xs) else (true, a ∷ xs)

pub set_insert_new :
    (xs : List Bytes) (a : Bytes)
    → not (set_insert xs a).0 ≡ false
    → (contains xs a ≡ false) × ((set_insert xs a).1 ≡ a ∷ xs)
unfolding set_insert
set_insert_new xs a h = ground arith

-- A `BTreeMap` keyed by byte strings. The program never iterates over one.
abbrev pub Map {ℓ} : Type ℓ → Type ℓ
Map V = List (Bytes × V)

module _ {ℓ} {V : Type ℓ} where
  -- `get_mut`
  unfoldable pub lookup : Bytes → Map V → Option V
  lookup key [] = none
  lookup key ((entry, value) ∷ rest) = if entry == key then some value else lookup key rest

  -- `insert`, and a write through the reference that `get_mut` returns
  unfoldable pub insert : Bytes → V → Map V → Map V
  insert key value [] = (key, value) ∷ []
  insert key value ((entry, old) ∷ rest) =
      if entry == key then (entry, value) ∷ rest else (entry, old) ∷ insert key value rest

  pub lookup-insert :
      (key other : Bytes) (value : V) (m : Map V)
      → lookup other (insert key value m) ≡ (if key == other then some value else lookup other m)
  unfolding lookup insert
  lookup-insert key other value [] = refl
  lookup-insert key other value ((entry, old) ∷ rest) = ground (
    arith,
    ==_iff key other,
    ==_iff entry key,
    ==_iff entry other,
    lookup-insert key other value rest,
  )
