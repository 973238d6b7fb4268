-- ===== src/Utils/Address/Owner.antt =====
-- `is_owner!` passes only if the program owns every account.
use audius_reward_manager.Prelude.{◌≡◌, List, [], ◌∷◌, ==_iff, not-eq_false}
use audius_reward_manager.Prelude.Predicates.{All}
use audius_reward_manager.Outcome.{ok, return_if-eq_ok}
use audius_reward_manager.State.{Pubkey}
use audius_reward_manager.Runtime.{AccountInfo, Ledger}
use audius_reward_manager.Utils.Address.{is_owner}

pub is_owner-eq_ok :
    (program_id : Pubkey) (accounts : List AccountInfo) (w : Ledger)
    → is_owner program_id accounts w ≡ ok tt
    → All (λ (a : AccountInfo). (w a.key).owner ≡ program_id) accounts
unfolding is_owner
is_owner-eq_ok program_id [] w h = tt
is_owner-eq_ok program_id (a ∷ accounts) w h =
    let (owned, rest) = return_if-eq_ok _ _ _ h in
    ((==_iff _ _).0 (not-eq_false _ owned), is_owner-eq_ok program_id accounts w rest)
