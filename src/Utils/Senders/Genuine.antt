-- ===== src/Utils/Senders/Genuine.antt =====
-- The accounts that `get_eth_addresses` accepts: genuine sender accounts of the reward manager, no
-- two with one address or one operator.
use mathlib.Core.List.{reverse, reverse-cons, append_assoc, append-nil}
use audius_reward_manager.Prelude.{
  ◌≡◌, refl, subst, sym, not-eq_false, ◌∙◌, List, [], ◌∷◌, ◌++◌, map, true, false, Bytes, ◌==◌,
  ==_iff, ◌||◌, contains, set_insert_new, arith,
}
use audius_reward_manager.Prelude.Predicates.{IsDistinct}
use audius_reward_manager.Outcome.{ok, bind-eq_ok, return_if-eq_ok, map_err-eq_ok}
use audius_reward_manager.State.{Pubkey, EthereumAddress, SenderAccount, is_initialized_sender}
use audius_reward_manager.Runtime.{AccountInfo, Ledger, Env}
use audius_reward_manager.Consts.{sender_seed_prefix}
use audius_reward_manager.Utils.Address.{AddressPair, get_address_pair}
use audius_reward_manager.Utils.Address.Owner.{is_owner-eq_ok}
use audius_reward_manager.Utils.Senders.{load_signer, collect_senders, get_eth_addresses}

contains-snoc :
    (xs : List Bytes) (x y : Bytes) → contains (xs ++ x ∷ []) y ≡ (contains xs y || x == y)
unfolding contains
contains-snoc [] x y = ground arith
contains-snoc (z ∷ xs) x y = ground (arith, contains-snoc xs x y)

module _ (env : Env) (program_id reward_manager_key : Pubkey) (w : Ledger) where
  -- The account at `signer` is the sender account `account` of the reward manager: the program owns
  -- it, it is initialised, and it stands at the address that its Ethereum address derives.
  pub record IsGenuine (signer : AccountInfo) (account : SenderAccount) : Type 0 where
    pub decoded : env.sender_borsh.try_from_slice (w signer.key).bytes ≡ ok account
    pub initialized : is_initialized_sender account ≡ true
    pub owned : (w signer.key).owner ≡ program_id
    pub derived :
        (pair : AddressPair) × (get_address_pair env program_id reward_manager_key
            (sender_seed_prefix ++ account.eth_address)
          ≡ ok pair)
        × (pair.derive.address ≡ signer.key)

  abbrev pub AllGenuine : List AccountInfo → List SenderAccount → Type 0
  AllGenuine [] [] = Unit
  AllGenuine (signer ∷ signers) (account ∷ accounts) =
      IsGenuine signer account × AllGenuine signers accounts
  AllGenuine _ _ = ⊥

  pub load_signer-eq_ok :
      (signer : AccountInfo) {account : SenderAccount}
      → load_signer env program_id reward_manager_key w signer ≡ ok account
      → IsGenuine signer account
  unfolding load_signer
  load_signer-eq_ok signer {account} h =
      let (found, decoded, h₁) = bind-eq_ok _ _ h in
      let (initialized, h₂) = return_if-eq_ok _ _ _ h₁ in
      let (_, owned, h₃) = bind-eq_ok _ _ h₂ in
      let (pair, derived, h₄) = bind-eq_ok _ _ h₃ in
      let (address, h₅) = return_if-eq_ok _ _ _ h₄ in
      let e : found ≡ account = cc in
      subst (λ (a : SenderAccount). IsGenuine signer a) e
        (record {
          decoded = decoded;
          initialized = not-eq_false _ initialized;
          owned = (is_owner-eq_ok program_id (signer ∷ []) w owned).0;
          derived = (pair, map_err-eq_ok _ _ derived, (==_iff _ _).0 (not-eq_false _ address));
        })

  IsDistinct-snoc :
      (xs : List Bytes) (x : Bytes)
      → IsDistinct xs
      → contains xs x ≡ false
      → IsDistinct (xs ++ x ∷ [])
  unfolding contains
  IsDistinct-snoc [] x d h = (refl, tt)
  IsDistinct-snoc (y ∷ xs) x (fresh, d) h = (
    ground (arith, contains-snoc xs x y, ==_iff y x, ==_iff x y),
    IsDistinct-snoc xs x d (ground arith),
  )

  -- What the loop over `signers` has gathered when it began with `addresses` and `operators`.
  record Gathered (signers : List AccountInfo)
      (addresses operators addresses' operators' : List EthereumAddress) : Type 0 where
    voters : List SenderAccount
    genuine : AllGenuine signers voters
    new_addresses : addresses' ≡ addresses ++ map (λ (v : SenderAccount). v.eth_address) voters
    new_operators :
        operators' ≡ reverse (map (λ (v : SenderAccount). v.operator) voters) ++ operators
    distinct_addresses : IsDistinct addresses'
    distinct_operators : IsDistinct operators'

  Gathered-cons :
      (signer : AccountInfo) (signers : List AccountInfo)
      (addresses operators : List EthereumAddress) (account : SenderAccount)
      {addresses' operators' : List EthereumAddress}
      → IsGenuine signer account
      → Gathered signers
          (addresses ++ account.eth_address ∷ [])
          (account.operator ∷ operators)
          addresses'
          operators'
      → Gathered (signer ∷ signers) addresses operators addresses' operators'
  Gathered-cons signer signers addresses operators account i g = record {
    voters = account ∷ g.voters;
    genuine = (i, g.genuine);
    new_addresses = g.new_addresses ∙ append_assoc addresses (account.eth_address ∷ []) _;
    new_operators = rw reverse-cons (rw append_assoc g.new_operators);
    distinct_addresses = g.distinct_addresses;
    distinct_operators = g.distinct_operators;
  }

  collect_senders-eq_ok :
      (signers : List AccountInfo) (addresses operators : List EthereumAddress)
      {addresses' operators' : List EthereumAddress}
      → IsDistinct addresses
      → IsDistinct operators
      → collect_senders env program_id reward_manager_key w signers addresses operators
        ≡ ok (addresses', operators')
      → Gathered signers addresses operators addresses' operators'
  unfolding collect_senders
  collect_senders-eq_ok [] addresses operators {addresses'} {operators'} da do' h =
      let e : addresses ≡ addresses' = cc in
      let f : operators ≡ operators' = cc in
      record {
        voters = [];
        genuine = tt;
        new_addresses = sym e ∙ sym (append-nil addresses);
        new_operators = sym f;
        distinct_addresses = subst IsDistinct e da;
        distinct_operators = subst IsDistinct f do';
      }
  collect_senders-eq_ok (signer ∷ signers) addresses operators {addresses'} {operators'} da do' h =
      let (account, loaded, h₁) =
        bind-eq_ok (load_signer env program_id reward_manager_key w signer) _ h in
      let (new_address, h₂) = return_if-eq_ok _ _ _ h₁ in
      let (new_operator, h₃) = return_if-eq_ok _ _ _ h₂ in
      let (unused, inserted) = set_insert_new operators account.operator new_operator in
      Gathered-cons signer signers addresses operators account (load_signer-eq_ok signer loaded) (
        collect_senders-eq_ok signers (addresses ++ account.eth_address ∷ [])
          (account.operator ∷ operators)
          (IsDistinct-snoc addresses account.eth_address da new_address) (unused, do')
          (rw inserted at h₃))

  -- The accepted senders, in the order of the accounts, with what the verifiers are given.
  pub record Electorate (signers : List AccountInfo) (addresses operators : List EthereumAddress)
      : Type 0 where
    pub voters : List SenderAccount
    pub genuine : AllGenuine signers voters
    pub addresses_lem : addresses ≡ map (λ (v : SenderAccount). v.eth_address) voters
    pub operators_lem : operators ≡ reverse (map (λ (v : SenderAccount). v.operator) voters)
    pub distinct_addresses : IsDistinct addresses
    pub distinct_operators : IsDistinct operators

  -- If `get_eth_addresses` succeeds, every account is a genuine sender account of the reward manager;
  -- the addresses are theirs, in order, and the operators theirs, in reverse; no address and no
  -- operator stands twice.
  pub get_eth_addresses-eq_ok :
      (signers : List AccountInfo) {addresses operators : List EthereumAddress}
      → get_eth_addresses env program_id reward_manager_key w signers ≡ ok (addresses, operators)
      → Electorate signers addresses operators
  unfolding get_eth_addresses
  get_eth_addresses-eq_ok signers h =
      let g = collect_senders-eq_ok signers [] [] tt tt h in
      record {
        voters = g.voters;
        genuine = g.genuine;
        addresses_lem = g.new_addresses;
        operators_lem = g.new_operators ∙ append-nil _;
        distinct_addresses = g.distinct_addresses;
        distinct_operators = g.distinct_operators;
      }
