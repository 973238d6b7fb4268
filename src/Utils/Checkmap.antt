-- ===== src/Utils/Checkmap.antt =====
-- program/src/utils.rs: the map that records which signer has been met.
pub mod Count
use audius_reward_manager.Prelude.{
  List, [], ◌∷◌, Bool, true, false, Option, none, some, Map, lookup, insert,
}
use audius_reward_manager.Outcome.{Result, ok, err}
use audius_reward_manager.Error.{ProgramError, from, sign_collission, wrong_signer}
use audius_reward_manager.State.{EthereumAddress}

-- The loop of `vec_into_checkmap`, with the map so far.
unfoldable pub fill_checkmap : List EthereumAddress → Map Bool → Map Bool
fill_checkmap [] map = map
fill_checkmap (item ∷ items) map = fill_checkmap items (insert item false map)

unfoldable pub vec_into_checkmap : List EthereumAddress → Map Bool
unfolding fill_checkmap
vec_into_checkmap vec = fill_checkmap vec []

-- What `check_signer` does with the entry that it finds.
abbrev pub mark : Map Bool → EthereumAddress → Option Bool → Result ProgramError (Map Bool)
mark checkmap eth_signer (some false) = ok (insert eth_signer true checkmap)
mark checkmap eth_signer (some true) = err (from sign_collission)
mark checkmap eth_signer none = err (from wrong_signer)

unfoldable pub check_signer : Map Bool → EthereumAddress → Result ProgramError (Map Bool)
check_signer checkmap eth_signer = mark checkmap eth_signer (lookup eth_signer checkmap)
