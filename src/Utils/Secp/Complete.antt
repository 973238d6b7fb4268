-- ===== src/Utils/Secp/Complete.antt =====
-- `get_secp_instructions` against the list of the instructions before the current one.
use audius_reward_manager.Prelude.{
  ℕ, ◌+◌, ◌≡◌, ap, ◌∙◌, List, [], ◌∷◌, ◌++◌, Bytes, ◌==◌, length, eqb, arith, Bool-cases, inl, inr,
  if◌then◌else◌, append_assoc, append-nil,
}
use audius_reward_manager.Outcome.{ok, err, ◌>>=◌, return_if, map_err}
use audius_reward_manager.Error.{secp256_instruction_missing}
use audius_reward_manager.Runtime.{Instruction, Env}
use audius_reward_manager.Utils.Secp.{collect_secp, get_secp_instructions}

module _ (env : Env) (sysvar : Bytes) where
  -- The sysvar lists these instructions from position `ind` on.
  abbrev pub Lists : ℕ → List Instruction → Type 0
  Lists ind [] = Unit
  Lists ind (ix ∷ ixs) = (env.load_instruction_at ind sysvar ≡ ok ix) × Lists (ind + 1) ixs

  -- The instructions of the signature program, in their order.
  abbrev pub secp_only : List Instruction → List Instruction
  secp_only [] = []
  secp_only (ix ∷ ixs) =
      if ix.program_id == env.secp256k1_program_id then ix ∷ secp_only ixs else secp_only ixs

  collect_secp_lem :
      (ind : ℕ) (ixs found : List Instruction)
      → Lists ind ixs
      → collect_secp env sysvar (length ixs) ind found ≡ ok (found ++ secp_only ixs)
  unfolding collect_secp ◌>>=◌ map_err
  collect_secp_lem ind [] found l = rw (append-nil found)
  collect_secp_lem ind (ix ∷ ixs) found l =
      elim (Bool-cases (ix.program_id == env.secp256k1_program_id)) [
        | inl secp ↦
            rw (l.0, secp)
              (collect_secp_lem (ind + 1) ixs (found ++ ix ∷ []) l.1
                ∙ ap ok (append_assoc found (ix ∷ []) (secp_only ixs)))
        | inr other ↦ rw (l.0, other) (collect_secp_lem (ind + 1) ixs found l.1)
      ]

  -- Where the sysvar lists the instructions `ixs` before the current one: those of the signature
  -- program among them are returned, in their order, if there are as many as were asked for; any
  -- other number is an error.
  pub get_secp_instructions_lem :
      (ixs : List Instruction) (count : ℕ)
      → Lists 0 ixs
      → get_secp_instructions env sysvar (length ixs) count ≡ (
          if eqb (length (secp_only ixs)) count
          then ok (secp_only ixs)
          else err secp256_instruction_missing)
  unfolding get_secp_instructions ◌>>=◌ return_if
  get_secp_instructions_lem ixs count l = rw (collect_secp_lem 0 ixs [] l) (ground arith)
