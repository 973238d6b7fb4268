-- ===== src/Utils/Secp/Collect.antt =====
-- Which instructions `get_secp_instructions` returns.
use audius_reward_manager.Prelude.{
  ℕ, zero, suc, ◌+◌, ◌<◌, ◌≡◌, subst, List, [], ◌∷◌, ◌++◌, Bytes, ◌==◌, ==_iff, length, not, eqb,
  arith, Bool-cases, inl, inr,
}
use audius_reward_manager.Prelude.Predicates.{All, All-append}
use audius_reward_manager.Outcome.{ok, bind-eq_ok, return_if-eq_ok, map_err, map_err-eq_ok}
use audius_reward_manager.Error.{secp256_instruction_missing, to_audius_program_error}
use audius_reward_manager.Runtime.{Instruction, Env}
use audius_reward_manager.Utils.Secp.{collect_secp, get_secp_instructions}

module _ (env : Env) (sysvar : Bytes) where
  -- An instruction of the signature program that stands before position `index` of the transaction.
  pub record IsSecpBefore (index : ℕ) (ix : Instruction) : Type 0 where
    pub program : ix.program_id ≡ env.secp256k1_program_id
    pub position : ℕ
    pub earlier : position < index
    pub loaded : env.load_instruction_at position sysvar ≡ ok ix

  collect_secp-eq_ok :
      (index rounds ind : ℕ) (found : List Instruction) {ixs : List Instruction}
      → ind + rounds ≡ index
      → All (IsSecpBefore index) found
      → collect_secp env sysvar rounds ind found ≡ ok ixs
      → All (IsSecpBefore index) ixs
  unfolding collect_secp
  collect_secp-eq_ok index zero ind found {ixs} n good h =
      let e : found ≡ ixs = cc in subst (All (IsSecpBefore index)) e good
  collect_secp-eq_ok index (suc rounds) ind found {ixs} n good h =
      let (ix, loaded, h₁) =
        bind-eq_ok (map_err to_audius_program_error (env.load_instruction_at ind sysvar)) _ h in
      elim (Bool-cases (ix.program_id == env.secp256k1_program_id)) [
        | inl secp ↦
            collect_secp-eq_ok index rounds (ind + 1) (found ++ ix ∷ []) (omega arith)
              (All-append _ found (ix ∷ []) good (
                record {
                  program = (==_iff _ _).0 secp;
                  position = ind;
                  earlier = omega arith;
                  loaded = map_err-eq_ok to_audius_program_error _ loaded;
                },
                tt,
              ))
              (rw secp at h₁)
        | inr other ↦
            collect_secp-eq_ok index rounds (ind + 1) found (omega arith) good (rw other at h₁)
      ]

  -- All returned instructions are of the signature program and stand before the current one, and
  -- there are as many as were asked for.
  pub get_secp_instructions-eq_ok :
      (index count : ℕ) {ixs : List Instruction}
      → get_secp_instructions env sysvar index count ≡ ok ixs
      → All (IsSecpBefore index) ixs × (length ixs ≡ count)
  unfolding get_secp_instructions
  get_secp_instructions-eq_ok index count {ixs} h =
      let (found, run, h₁) = bind-eq_ok (collect_secp env sysvar index 0 []) _ h in
      let (counted, h₂) =
        return_if-eq_ok (not (eqb (length found) count)) secp256_instruction_missing (ok found)
          h₁ in
      let e : found ≡ ixs = cc in
      let n : length found ≡ count = ground arith in
      (
        subst (All (IsSecpBefore index)) e
            (collect_secp-eq_ok index index 0 [] (omega arith) tt run),
        subst (λ (l : List Instruction). length l ≡ count) e n,
      )
