-- ===== src/Consts.antt =====
-- The constants of program/src/processor.rs.
use audius_reward_manager.Prelude.{ℕ, Bytes, [], ◌∷◌}

-- "S_"
abbrev pub sender_seed_prefix : Bytes
sender_seed_prefix = b'S' ∷ b'_' ∷ []

-- "T_"
abbrev pub transfer_seed_prefix : Bytes
transfer_seed_prefix = b'T' ∷ b'_' ∷ []

abbrev pub transfer_acc_balance : ℕ
transfer_acc_balance = 1

abbrev pub transfer_acc_space : ℕ
transfer_acc_space = 0
