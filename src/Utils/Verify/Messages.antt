-- ===== src/Utils/Verify/Messages.antt =====
-- The messages tell apart what they are about.
use audius_reward_manager.Prelude.{
  ℕ, zero, suc, ◌*◌, ◌/◌, ◌^◌, ◌<◌, ◌≡◌, refl, ap, List, [], ◌∷◌, ◌++◌, Bytes, length,
  length-append, arith,
}
use audius_reward_manager.State.{EthereumAddress}
use audius_reward_manager.Instructions.{Transfer}
use audius_reward_manager.Utils.Verify.{to_le_bytes, separator, bot_oracle_message, senders_message}

pub length-to_le_bytes : (width n : ℕ) → length (to_le_bytes width n) ≡ width
unfolding to_le_bytes
length-to_le_bytes zero n = refl
length-to_le_bytes (suc width) n = ap suc (length-to_le_bytes width (n / 256))

-- How many numbers `width` bytes can hold.
le_bound : ℕ → ℕ
le_bound zero = 1
le_bound (suc width) = 256 * le_bound width

∷-injective {ℓ} : {A : Type ℓ} {x y : A} {xs ys : List A} → x ∷ xs ≡ y ∷ ys → (x ≡ y) × (xs ≡ ys)
∷-injective h = (cc, cc)

to_le_bytes-injective :
    (width a b : ℕ)
    → a < le_bound width
    → b < le_bound width
    → to_le_bytes width a ≡ to_le_bytes width b
    → a ≡ b
unfolding to_le_bytes le_bound
to_le_bytes-injective zero a b ha hb h = omega arith
to_le_bytes-injective (suc width) a b ha hb h =
    let (low, high) = ∷-injective h in
    omega
      (arith, low, to_le_bytes-injective width (a / 256) (b / 256) (omega arith) (omega arith) high)

le_bound_u64 : le_bound 8 ≡ 2 ^ 64
unfolding le_bound
le_bound_u64 = refl

-- Two concatenations that are equal, with first parts of one length, have equal parts.
append_split :
    (xs xs' ys ys' : Bytes)
    → length xs ≡ length xs'
    → xs ++ ys ≡ xs' ++ ys'
    → (xs ≡ xs') × (ys ≡ ys')
append_split [] [] ys ys' n h = (refl, h)
append_split [] (x' ∷ xs') ys ys' n h = absurd (omega arith)
append_split (x ∷ xs) [] ys ys' n h = absurd (omega arith)
append_split (x ∷ xs) (x' ∷ xs') ys ys' n h =
    let (e, t) = ∷-injective h in
    let (es, r) = append_split xs xs' ys ys' (omega arith) t in (cc, r)

-- The same, with last parts of one length.
append_split_right :
    (xs xs' ys ys' : Bytes)
    → length ys ≡ length ys'
    → xs ++ ys ≡ xs' ++ ys'
    → (xs ≡ xs') × (ys ≡ ys')
append_split_right xs xs' ys ys' n h =
    append_split xs xs' ys ys'
      (omega (arith, ap (length {0}) h, length-append xs ys, length-append xs' ys')) h

-- What the types of the source say of a `Transfer`.
pub record IsTyped (t : Transfer) : Type 0 where
  pub recipient_size : length t.eth_recipient ≡ 20
  pub amount_fits : t.amount < 2 ^ 64

-- The part that both messages begin with, before any tail.
prefix_split :
    (t u : Transfer) (r s : Bytes)
    → IsTyped t
    → IsTyped u
    → t.eth_recipient ++ (separator ++ (to_le_bytes 8 t.amount ++ (separator ++ r)))
      ≡ u.eth_recipient ++ (separator ++ (to_le_bytes 8 u.amount ++ (separator ++ s)))
    → (t.eth_recipient ≡ u.eth_recipient) × (t.amount ≡ u.amount) × (r ≡ s)
prefix_split t u r s ht hu h =
    let (same_recipient, h₁) =
      append_split _ _ _ _ (omega (arith, ht.recipient_size, hu.recipient_size)) h in
    let (_, h₂) = append_split separator separator _ _ refl h₁ in
    let (same_amount, h₃) =
      append_split _ _ _ _
        (omega (arith, length-to_le_bytes 8 t.amount, length-to_le_bytes 8 u.amount)) h₂ in
    let (_, h₄) = append_split separator separator _ _ refl h₃ in
    (
      same_recipient,
      to_le_bytes-injective 8 t.amount u.amount (rw le_bound_u64 ht.amount_fits)
          (rw le_bound_u64 hu.amount_fits) same_amount,
      h₄,
    )

Transfer-ext :
    (t u : Transfer) → t.eth_recipient ≡ u.eth_recipient → t.amount ≡ u.amount → t.id ≡ u.id → t ≡ u
Transfer-ext t u p q r = λ i. record { amount = q i; id = r i; eth_recipient = p i }

-- The oracle's message determines the transfer, for recipients of 20 bytes and amounts that fit a
-- `u64`.
pub bot_oracle_message-injective :
    (t u : Transfer) → IsTyped t → IsTyped u → bot_oracle_message t ≡ bot_oracle_message u → t ≡ u
unfolding bot_oracle_message
bot_oracle_message-injective t u ht hu h =
    let (p, q, r) = prefix_split t u t.id u.id ht hu h in Transfer-ext t u p q r

-- The senders' message determines the transfer and the oracle, for addresses of 20 bytes and amounts
-- that fit a `u64`.
pub senders_message-injective :
    (t u : Transfer) (o o' : EthereumAddress)
    → IsTyped t
    → IsTyped u
    → length o ≡ 20
    → length o' ≡ 20
    → senders_message t o ≡ senders_message u o'
    → (t ≡ u) × (o ≡ o')
unfolding senders_message
senders_message-injective t u o o' ht hu ho ho' h =
    let (p, q, r) =
      prefix_split t u (t.id ++ (separator ++ o)) (u.id ++ (separator ++ o')) ht hu h in
    let (same_id, tail) =
      append_split_right t.id u.id (separator ++ o) (separator ++ o') (omega (arith, ho, ho')) r in
    (Transfer-ext t u p q same_id, (append_split separator separator o o' refl tail).1)
