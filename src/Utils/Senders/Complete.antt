-- ===== src/Utils/Senders/Complete.antt =====
-- `get_eth_addresses` accepts every electorate of genuine senders.
use mathlib.Core.List.{reverse, reverse-cons}
use mathlib.Core.Logic.{◌↔◌}
use audius_reward_manager.Prelude.{
  ◌≡◌, subst, sym, ◌∙◌, List, [], ◌∷◌, ◌++◌, map, ==_refl, set_insert, append_assoc, append-nil,
}
use audius_reward_manager.Prelude.Predicates.{IsDistinct, IsDistinct-behind, IsDistinct-middle}
use audius_reward_manager.Outcome.{ok, ◌>>=◌, return_if, map_err}
use audius_reward_manager.State.{Pubkey, EthereumAddress, SenderAccount}
use audius_reward_manager.Runtime.{AccountInfo, Ledger, Env}
use audius_reward_manager.Utils.Address.{is_owner}
use audius_reward_manager.Utils.Senders.{load_signer, collect_senders, get_eth_addresses}
use audius_reward_manager.Utils.Senders.Genuine.{
  IsGenuine, AllGenuine, Electorate, get_eth_addresses-eq_ok,
}

abbrev addresses_of : List SenderAccount → List EthereumAddress
addresses_of voters = map (λ (v : SenderAccount). v.eth_address) voters

abbrev operators_of : List SenderAccount → List EthereumAddress
operators_of voters = map (λ (v : SenderAccount). v.operator) voters

module _ (env : Env) (program_id reward_manager_key : Pubkey) (w : Ledger) where
  load_signer-IsGenuine :
      (signer : AccountInfo) (account : SenderAccount)
      → IsGenuine env program_id reward_manager_key w signer account
      → load_signer env program_id reward_manager_key w signer ≡ ok account
  unfolding load_signer is_owner ◌>>=◌ return_if map_err
  load_signer-IsGenuine signer account g = rw (
    g.decoded,
    g.initialized,
    g.owned,
    ==_refl program_id,
    g.derived.1,
    g.derived.2,
    ==_refl signer.key,
  )

  collect_senders-AllGenuine :
      (signers : List AccountInfo) (voters : List SenderAccount)
      (addresses operators : List EthereumAddress)
      → AllGenuine env program_id reward_manager_key w signers voters
      → IsDistinct (addresses ++ addresses_of voters)
      → IsDistinct (reverse (operators_of voters) ++ operators)
      → collect_senders env program_id reward_manager_key w signers addresses operators
        ≡ ok (addresses ++ addresses_of voters, reverse (operators_of voters) ++ operators)
  unfolding collect_senders ◌>>=◌ return_if set_insert
  collect_senders-AllGenuine [] [] addresses operators all da do' = rw (append-nil addresses)
  collect_senders-AllGenuine [] (v ∷ voters) addresses operators all da do' = absurd all
  collect_senders-AllGenuine (a ∷ signers) [] addresses operators all da do' = absurd all
  collect_senders-AllGenuine (a ∷ signers) (v ∷ voters) addresses operators all da do' =
      let e : reverse (operators_of (v ∷ voters)) ++ operators
          ≡ reverse (operators_of voters) ++ (v.operator ∷ operators) =
        rw reverse-cons
          (append_assoc (reverse (operators_of voters)) (v.operator ∷ []) operators) in
      let do'' = subst IsDistinct e do' in
      let new_address = IsDistinct-middle addresses (addresses_of voters) v.eth_address da in
      let new_operator =
        (IsDistinct-behind (reverse (operators_of voters)) (v.operator ∷ operators) do'').0 in
      let f = append_assoc addresses (v.eth_address ∷ []) (addresses_of voters) in
      let rest =
        collect_senders-AllGenuine signers voters (addresses ++ v.eth_address ∷ [])
          (v.operator ∷ operators) all.1 (subst IsDistinct (sym f) da) do'' in
      rw (load_signer-IsGenuine a v all.0, new_address, new_operator) (rest ∙ rw (f, e))

  -- Every electorate is accepted: genuine sender accounts of the reward manager with different
  -- addresses and different operators, whose addresses and operators are those that it returns.
  pub get_eth_addresses-Electorate :
      (signers : List AccountInfo) {addresses operators : List EthereumAddress}
      → Electorate env program_id reward_manager_key w signers addresses operators
      → get_eth_addresses env program_id reward_manager_key w signers ≡ ok (addresses, operators)
  unfolding get_eth_addresses
  get_eth_addresses-Electorate signers {addresses} {operators} g =
      let o = append-nil (reverse (operators_of g.voters)) in
      collect_senders-AllGenuine signers g.voters [] [] g.genuine
        (subst IsDistinct g.addresses_lem g.distinct_addresses)
        (subst IsDistinct (g.operators_lem ∙ sym o) g.distinct_operators)
      ∙ rw (o, g.addresses_lem, g.operators_lem)

  -- `get_eth_addresses` returns addresses and operators exactly where they are those of an
  -- electorate: the accounts are genuine sender accounts of the reward manager, no two with one
  -- address or one operator, and the addresses are theirs, in order, and the operators theirs, in
  -- reverse.
  pub get_eth_addresses_iff :
      (signers : List AccountInfo) (addresses operators : List EthereumAddress)
      → (get_eth_addresses env program_id reward_manager_key w signers ≡ ok (addresses, operators))
        ↔ Electorate env program_id reward_manager_key w signers addresses operators
  get_eth_addresses_iff signers addresses operators = (
    get_eth_addresses-eq_ok env program_id reward_manager_key w signers,
    get_eth_addresses-Electorate signers,
  )
