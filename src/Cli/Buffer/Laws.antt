-- ===== src/Cli/Buffer/Laws.antt =====
-- A write replaces the middle of a buffer.
use audius_reward_manager.Prelude.{
  ℕ, zero, suc, ◌+◌, ◌≡◌, ◌<◌, ◌^◌, refl, ap, List, ◌∷◌, ◌++◌, Bytes, length, length-append, take,
  drop, take-append, drop-append, drop-append_add, replicate, arith, ◌∙◌,
}
use audius_reward_manager.Outcome.{ok}
use audius_reward_manager.Cli.Buffer.{saturating_add, copy_from_slice, set_byte, write_into}

pub saturating_add_lem : (a b : ℕ) → a + b < 2 ^ 64 → saturating_add a b ≡ a + b
unfolding saturating_add
saturating_add_lem a b h = ground arith

pub replicate-add {ℓ} :
    {A : Type ℓ} (m n : ℕ) (a : A) → replicate (m + n) a ≡ replicate m a ++ replicate n a
unfolding replicate
replicate-add zero n a = ap (λ (k : ℕ). replicate k a) (omega arith)
replicate-add (suc m) n a =
    let e : suc m + n ≡ suc (m + n) = omega arith in
    rw e (ap (λ (t : List _). a ∷ t) (replicate-add m n a))

module _ (front middle back source : Bytes) where
  size_lem : length (front ++ (middle ++ back)) ≡ length front + (length middle + length back)
  size_lem = omega (arith, length-append front (middle ++ back), length-append middle back)

  pub copy_from_slice-append :
      (start end : ℕ)
      → length front ≡ start
      → start + length middle ≡ end
      → length middle ≡ length source
      → copy_from_slice (front ++ (middle ++ back)) start end source
        ≡ ok (front ++ (source ++ back))
  unfolding copy_from_slice
  copy_from_slice-append start end at_start at_end same =
      let kept : take start (front ++ (middle ++ back)) ≡ front =
        take-append start front (middle ++ back) at_start in
      let left : drop end (front ++ (middle ++ back)) ≡ back =
        ap (λ (n : ℕ). drop n (front ++ (middle ++ back))) (omega arith)
        ∙ drop-append_add start (length middle) front (middle ++ back) at_start
        ∙ drop-append (length middle) middle back refl in
      ground (arith, size_lem)

  pub write_into-append :
      (start end : ℕ)
      → length front ≡ start
      → start + length middle ≡ end
      → length middle ≡ length source
      → write_into (front ++ (middle ++ back)) start end source ≡ ok (front ++ (source ++ back))
  unfolding write_into
  write_into-append start end at_start at_end same =
      let kept : take start (front ++ (middle ++ back)) ≡ front =
        take-append start front (middle ++ back) at_start in
      let left : drop (start + length source) (front ++ (middle ++ back)) ≡ back =
        ap (λ (n : ℕ). drop n (front ++ (middle ++ back))) (omega arith)
        ∙ drop-append_add start (length middle) front (middle ++ back) at_start
        ∙ drop-append (length middle) middle back refl in
      ground (arith, size_lem)

pub set_byte-append :
    (front back : Bytes) (old new i : ℕ)
    → length front ≡ i
    → set_byte (front ++ old ∷ back) i new ≡ ok (front ++ new ∷ back)
unfolding set_byte drop
set_byte-append front back old new i at_i =
    let kept : take i (front ++ old ∷ back) ≡ front = take-append i front (old ∷ back) at_i in
    let left : drop (i + 1) (front ++ old ∷ back) ≡ back =
      drop-append_add i 1 front (old ∷ back) at_i in
    ground (arith, length-append front (old ∷ back))
