-- ===== src/Tests/Managers.antt =====
-- A reward manager is initialised on the concrete chain.
use audius_reward_manager.Prelude.{ℕ, ◌≡◌, refl, [], ◌∷◌, ◌==◌, take, drop, replicate}
use audius_reward_manager.Outcome.{Result, ok, err}
use audius_reward_manager.Error.{ProgramError, account_already_initialized}
use audius_reward_manager.State.{Pubkey, new_reward_manager}
use audius_reward_manager.Runtime.{AccountInfo, Ledger, update}
use audius_reward_manager.Processor.Init.{process_init_instruction}
use audius_reward_manager.Processor.Init.Once.{process_init_once}
use audius_reward_manager.Tests.Chain.{chain, program, chain-IsRuntime}
use audius_reward_manager.Tests.Scene.{key, info, ledger, base, value}

abbrev pub fresh_key : Pubkey
fresh_key = key 12

abbrev authority : AccountInfo
authority = info (((chain []).find_program_address (fresh_key ∷ []) program).0)

abbrev pub opened : Ledger
opened = update ledger fresh_key (record { lamports = 5; bytes = replicate 66 0; owner = program })

abbrev init : Result ProgramError Ledger
init =
    process_init_instruction (chain []) program (info fresh_key) (info (key 40)) base
      (info (key 11)) authority base base 2 opened

initiated : Ledger
unfolding value process_init_instruction
initiated = value init

inits : init ≡ ok initiated
unfolding initiated new_reward_manager
inits = refl

process_init_once_example :
    ((chain []).reward_manager_borsh.try_from_slice (initiated fresh_key).bytes
      ≡ ok (new_reward_manager (key 40) (key 11) 2))
    × ((i₂ i₃ i₄ i₅ i₆ i₇ : AccountInfo) (votes : ℕ)
        → process_init_instruction
            (chain [])
            program
            (info fresh_key)
            i₂
            i₃
            i₄
            i₅
            i₆
            i₇
            votes
            initiated
          ≡ err account_already_initialized)
unfolding update new_reward_manager ◌==◌ replicate take drop
process_init_once_example =
    process_init_once (chain []) program (info fresh_key) (info (key 40)) base (info (key 11))
      authority base base 2 opened (chain-IsRuntime []) refl refl refl inits
