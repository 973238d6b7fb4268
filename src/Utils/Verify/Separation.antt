-- ===== src/Utils/Verify/Separation.antt =====
-- Where a signature for one purpose can, and cannot, serve another.
use audius_reward_manager.Prelude.{
  ℕ, zero, suc, ◌<◌, ◌≡◌, ◌≢◌, sym, ap, ◌∙◌, refl, [], ◌∷◌, ◌++◌, Bytes, some, length,
  length-append, get_elem?, arith,
}
use audius_reward_manager.State.{Pubkey, EthereumAddress}
use audius_reward_manager.Instructions.{Transfer}
use audius_reward_manager.Utils.Verify.{
  separator, bot_oracle_message, senders_message, add_sender_message,
}
use audius_reward_manager.Utils.Verify.Messages.{IsTyped}

get_elem?-append_left :
    (xs ys : Bytes) (i : ℕ) → i < length xs → get_elem? (xs ++ ys) i ≡ get_elem? xs i
unfolding get_elem?
get_elem?-append_left [] ys i h = elim h [ ]
get_elem?-append_left (x ∷ xs) ys zero h = refl
get_elem?-append_left (x ∷ xs) ys (suc i) h = get_elem?-append_left xs ys i (omega arith)

get_elem?-append_at :
    (xs ys : Bytes) (y : ℕ) (i : ℕ) → length xs ≡ i → get_elem? (xs ++ y ∷ ys) i ≡ some y
unfolding get_elem?
get_elem?-append_at [] ys y zero h = refl
get_elem?-append_at [] ys y (suc i) h = absurd (omega arith)
get_elem?-append_at (x ∷ xs) ys y zero h = absurd (omega arith)
get_elem?-append_at (x ∷ xs) ys y (suc i) h = get_elem?-append_at xs ys y i (omega arith)

-- A message for a transfer has the separator at byte 20; one for a new sender has there byte 20 of
-- the reward manager's key.
module _ (key : Pubkey) (new_sender : EthereumAddress) (t : Transfer) (rest : Bytes)
    (size : length key ≡ 32) (typed : IsTyped t) where
  separated :
      get_elem? key 20 ≢ some b'_'
      → add_sender_message key new_sender ≢ t.eth_recipient ++ (separator ++ rest)
  unfolding add_sender_message
  separated ne e = ne (
      sym (get_elem?-append_left key new_sender 20 (omega (arith, size)))
      ∙ ap (λ (m : Bytes). get_elem? m 20) e
      ∙ get_elem?-append_at t.eth_recipient rest b'_' 20 typed.recipient_size)

-- A vote for a new sender is no signature for a transfer, of a sender or of an oracle, unless byte 20
-- of the reward manager's key is the separator.
pub add_sender_message-ne :
    (key : Pubkey) (new_sender oracle : EthereumAddress) (t : Transfer)
    → length key ≡ 32
    → IsTyped t
    → get_elem? key 20 ≢ some b'_'
    → (add_sender_message key new_sender ≢ bot_oracle_message t)
      × (add_sender_message key new_sender ≢ senders_message t oracle)
unfolding bot_oracle_message senders_message
add_sender_message-ne key new_sender oracle t size typed ne =
    (separated key new_sender t _ size typed ne, separated key new_sender t _ size typed ne)

-- For one transfer a sender's message and the oracle's are never the same.
pub senders_message-ne-bot_oracle_message :
    (t : Transfer) (oracle : EthereumAddress) → senders_message t oracle ≢ bot_oracle_message t
unfolding senders_message bot_oracle_message
senders_message-ne-bot_oracle_message t oracle e =
    omega (arith, ap (length {0}) e, length-append {0})
