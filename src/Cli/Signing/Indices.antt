-- ===== src/Cli/Signing/Indices.antt =====
-- Which instruction of the transaction the header of each signature instruction names.
use audius_reward_manager.Prelude.{
  ℕ, zero, suc, ◌+◌, ◌<◌, ◌≤◌, ◌≡◌, ◌^◌, sym, ap, ◌∙◌, List, [], ◌∷◌, ◌++◌, some, Bytes, length,
  get_elem?, arith,
}
use audius_reward_manager.Outcome.{ok, ok-injective}
use audius_reward_manager.Runtime.{Instruction, Env}
use audius_reward_manager.Cli.Client.{SecretKey, SecpSignatureOffsets, Client, HasSizes}
use audius_reward_manager.Cli.Signing.{sign_message}
use audius_reward_manager.Cli.Signing.Layout.{secp_instruction, offsets_of}
use audius_reward_manager.Cli.Signing.Reading.{
  Points, secp_instruction-Points, signed_from, sign_message_lem,
}

get_elem?-add {ℓ} :
    {A : Type ℓ} (first : List A) (rest : List A) (i : ℕ)
    → get_elem? (first ++ rest) (length first + i) ≡ get_elem? rest i
unfolding get_elem?
get_elem?-add [] rest i = ap (get_elem? rest) (omega arith)
get_elem?-add (x ∷ first) rest i =
    let e : suc (length first) + i ≡ suc (length first + i) = omega arith in
    rw e (get_elem?-add first rest i)

module _ (env : Env) (client : Client) (sizes : HasSizes client) where
  get_elem?-signed_from :
      (i j : ℕ) (m : Bytes) (keys : List SecretKey) (rest : List Instruction) {k : SecretKey}
      → get_elem? keys i ≡ some k
      → get_elem? (signed_from env client sizes j m keys ++ rest) i
        ≡ some (secp_instruction env client sizes k m (j + i))
  unfolding get_elem?
  get_elem?-signed_from i j m [] rest h = cc
  get_elem?-signed_from zero j m (key ∷ keys) rest {k} h =
      let e : key ≡ k = cc in
      let n : j ≡ j + 0 = omega arith in λ t. some (secp_instruction env client sizes (e t) m (n t))
  get_elem?-signed_from (suc i) j m (key ∷ keys) rest {k} h =
      let e : j + 1 + i ≡ j + suc i = omega arith in
      get_elem?-signed_from i (j + 1) m keys rest h
      ∙ ap (λ (n : ℕ). some (secp_instruction env client sizes k m n)) e

  -- For a message of less than 2^16 bytes and at most 256 keys: of the instructions that
  -- `sign_message` makes, the one for the key `i` has offsets in its header that lead to its own
  -- parts in the instruction `i`; where other instructions stand before them all, it is not the
  -- instruction `i` of the transaction but stands later by as many.
  pub sign_message-indices :
      (m : Bytes) (keys : List SecretKey) (first rest : List Instruction) (i : ℕ) {k : SecretKey}
      {ixs : List Instruction}
      → length m < 2 ^ 16
      → length keys ≤ 256
      → sign_message env client m keys ≡ ok ixs
      → get_elem? keys i ≡ some k
      → (ix : Instruction) × (o : SecpSignatureOffsets) × (get_elem?
            (first ++ (ixs ++ rest))
            (length first + i)
          ≡ some ix)
        × Points env client sizes k m i ix.bytes o
  sign_message-indices m keys first rest i {k} {ixs} small few signed at_i =
      let same : ixs ≡ signed_from env client sizes 0 m keys =
        ok-injective (sym signed ∙ sign_message_lem env client sizes m keys small few) in
      let e : 0 + i ≡ i = omega arith in
      (
        secp_instruction env client sizes k m i,
        offsets_of i (length m),
        get_elem?-add first (ixs ++ rest) i
            ∙ ap (λ (l : List Instruction). get_elem? (l ++ rest) i) same
            ∙ get_elem?-signed_from i 0 m keys rest at_i
            ∙ ap (λ (n : ℕ). some (secp_instruction env client sizes k m n)) e,
        secp_instruction-Points env client sizes k m i,
      )
