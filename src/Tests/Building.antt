-- ===== src/Tests/Building.antt =====
-- The derived addresses and the voters in the built instructions of the concrete chain.
use audius_reward_manager.Prelude.{Bytes, List, [], ◌∷◌, ◌++◌}
use audius_reward_manager.State.{Pubkey}
use audius_reward_manager.Utils.Address.{AddressPair}
use audius_reward_manager.Tests.Scene.{eth, manager_key, sender_key}

abbrev pub pair_of : Bytes → AddressPair
pair_of seed = record {
  base = record { address = 255 ∷ manager_key; seed = 254 };
  derive = record { address = (255 ∷ manager_key) ++ seed; seed = seed };
}

abbrev pub voters : List Pubkey
voters = sender_key (eth 21) ∷ sender_key (eth 22) ∷ []
