-- ===== src/Utils/Verify/Exact/Box.antt =====
-- The abstract view of the vote on a new sender: a box of ballots, which forgets their order.
use audius_reward_manager.Utils.Verify.{build_verify_secp_add_sender}
use audius_reward_manager.Utils.Verify.Exact.{build_verify_secp_add_sender_iff}
use audius_reward_manager.Error.{ProgramError}
use audius_reward_manager.Outcome.{⊤, Result}
use audius_reward_manager.State.{EthereumAddress, Pubkey}
use mathlib.Core.List.{Permᴰ}
use mathlib.Core.List.Permᴰ.{nil, cons, swap, trans}
use mathlib.Core.Logic.{∥∥₁_elim, ◌↔◌}
use mathlib.Core.Bool.{Bool-set}
use mathlib.Mathlib.Data.Multiset.Defs.{Multiset, of_list, coe-eq-coe}
use audius_reward_manager.Outcome.{Result, ok, err, panic, ⊤}
use audius_reward_manager.Error.{ProgramError}
use audius_reward_manager.State.{Pubkey, EthereumAddress}
use audius_reward_manager.Utils.Verify.{add_sender_message, build_verify_secp_add_sender}
use audius_reward_manager.Utils.Verify.Exact.{build_verify_secp_add_sender_iff}
use audius_reward_manager.Prelude.{
  Bool, Bool, ◌≡◌, refl, sym, subst, ◌∙◌, List, [], ◌∷◌, true, false, Bytes, ==_iff, contains,
  arith,
}
use audius_reward_manager.Prelude.Predicates.{IsDistinct}
use audius_reward_manager.Runtime.{Instruction}
use audius_reward_manager.Utils.Secp.Reading.{Attests}
use audius_reward_manager.Utils.Verify.Ballots.{Ballots, Within}

-- A list holds what any arrangement of it holds.
contains-Permᴰ : {xs ys : List Bytes} → Permᴰ xs ys → (s : Bytes) → contains xs s ≡ contains ys s
unfolding contains
contains-Permᴰ nil s = refl
contains-Permᴰ (cons e p) s = rw e (ground (arith, contains-Permᴰ p s))
contains-Permᴰ (swap e f) s = rw (e, f) (ground arith)
contains-Permᴰ (trans p q) s = contains-Permᴰ p s ∙ contains-Permᴰ q s

IsDistinct-Permᴰ : {xs ys : List Bytes} → Permᴰ xs ys → IsDistinct xs → IsDistinct ys
unfolding contains
IsDistinct-Permᴰ nil d = tt
IsDistinct-Permᴰ (cons {a} {b} {l₁} {l₂} e p) (fresh, d) =
    (sym (contains-Permᴰ p b) ∙ subst (λ x. contains l₁ x ≡ false) e fresh, IsDistinct-Permᴰ p d)
IsDistinct-Permᴰ (swap {a} {b} {a'} {b'} {l} e f) (fresh, (fresh', d)) =
    rw (← e, ← f) (ground (arith, ==_iff a b, ==_iff b a), (ground arith, d))
IsDistinct-Permᴰ (trans p q) d = IsDistinct-Permᴰ q (IsDistinct-Permᴰ p d)

Within-Permᴰ :
    (signers : List Bytes) {xs ys : List Bytes}
    → Permᴰ xs ys
    → Within signers xs
    → Within signers ys
Within-Permᴰ signers nil w = tt
Within-Permᴰ signers (cons e p) (here, w) =
    (subst (λ x. contains signers x ≡ true) e here, Within-Permᴰ signers p w)
Within-Permᴰ signers (swap e f) (first, (second, w)) = (
  subst (λ x. contains signers x ≡ true) f second,
  (subst (λ x. contains signers x ≡ true) e first, w),
)
Within-Permᴰ signers (trans p q) w = Within-Permᴰ signers q (Within-Permᴰ signers p w)

-- The signers of ballots that are arranged in another way.
Ballots-Permᴰ :
    (message : Bytes) {ixs jxs : List Instruction} (order : List Bytes)
    → Permᴰ ixs jxs
    → Ballots order message ixs
    → (order' : List Bytes) × Permᴰ order order' × Ballots order' message jxs
Ballots-Permᴰ message [] nil cast = ([], nil, tt)
Ballots-Permᴰ message (s ∷ order) nil cast = absurd cast
Ballots-Permᴰ message [] (cons e p) cast = absurd cast
Ballots-Permᴰ message (s ∷ order) (cons e p) (a, cast) =
    let (order', q, cast') = Ballots-Permᴰ message order p cast in
    (s ∷ order', cons refl q, (subst (λ (x : Instruction). Attests s message x.bytes) e a, cast'))
Ballots-Permᴰ message [] (swap e f) cast = absurd cast
Ballots-Permᴰ message (s ∷ []) (swap e f) (a, cast) = absurd cast
Ballots-Permᴰ message (s ∷ t ∷ order) (swap e f) (a, (b, cast)) = (
  t ∷ s ∷ order,
  swap refl refl,
  (
    subst (λ (x : Instruction). Attests t message x.bytes) f b,
    (subst (λ (x : Instruction). Attests s message x.bytes) e a, cast),
  ),
)
Ballots-Permᴰ message order (trans p q) cast =
    let (order', p', cast') = Ballots-Permᴰ message order p cast in
    let (order'', q', cast'') = Ballots-Permᴰ message order' q cast' in
    (order'', trans p' q', cast'')

abbrev is_accepted : Result ProgramError ⊤ → Bool
is_accepted (ok _) = true
is_accepted (err _) = false
is_accepted panic = false

is_accepted_iff : (r : Result ProgramError ⊤) → (is_accepted r ≡ true) ↔ (r ≡ ok tt)
is_accepted_iff (ok tt) = (λ h. refl, λ h. refl)
is_accepted_iff (err e) = (λ h. cc, λ h. cc)
is_accepted_iff panic = (λ h. cc, λ h. cc)

module _ (reward_manager_key : Pubkey) (new_sender : EthereumAddress)
    (signers : List EthereumAddress) where
  -- A box of ballots, of which each is for the new sender and cast by another of the signers.
  abbrev pub IsElected : Multiset Instruction → Type 0
  IsElected box = ∥ (
      (ballots : List Instruction) × (of_list ballots ≡ box)
      × (order : List EthereumAddress) × Ballots order
          (add_sender_message reward_manager_key new_sender) ballots
      × IsDistinct order
      × Within signers order) ∥₁

  module _ (operators : List EthereumAddress) where
    abbrev verdict : List Instruction → Result ProgramError ⊤
    verdict ixs = build_verify_secp_add_sender reward_manager_key new_sender ixs signers operators

    -- Ballots are accepted in any arrangement.
    rearranged :
        {ballots ixs : List Instruction} (order : List EthereumAddress)
        → Permᴰ ballots ixs
        → Ballots order (add_sender_message reward_manager_key new_sender) ballots
        → IsDistinct order
        → Within signers order
        → is_accepted (verdict ixs) ≡ true
    rearranged {ixs = ixs} order p cast distinct within =
        let (order', q, cast') = Ballots-Permᴰ _ order p cast in
        (is_accepted_iff (verdict ixs)).1 (
          (build_verify_secp_add_sender_iff reward_manager_key new_sender ixs signers operators).1
            (order', cast', IsDistinct-Permᴰ q distinct, Within-Permᴰ signers q within))

    -- The verifier of `AddSender` sees a box of ballots: it accepts a list of instructions exactly
    -- where the box that they fill, which forgets their order, is elected, that is some arrangement
    -- of it is a list of ballots for the new sender, each cast by another of the signers.
    pub build_verify_secp_add_sender-IsElected :
        (ixs : List Instruction)
        → (build_verify_secp_add_sender reward_manager_key new_sender ixs signers operators ≡ ok tt)
          ↔ IsElected (of_list ixs)
    build_verify_secp_add_sender-IsElected ixs = (
      λ h.
          let (order, cast, distinct, within) =
            (build_verify_secp_add_sender_iff reward_manager_key new_sender ixs signers operators).0
              h in
          ∣ (ixs, refl, order, cast, distinct, within) ∣₁,
      λ elected. (is_accepted_iff (verdict ixs)).0 (
          ∥∥₁_elim elected (Bool-set _ _) (λ (ballots, fills, order, cast, distinct, within).
            ∥∥₁_elim (coe-eq-coe.0 fills) (Bool-set _ _)
              (λ p. rearranged order p cast distinct within))),
    )
