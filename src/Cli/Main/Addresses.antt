-- ===== src/Cli/Main/Addresses.antt =====
-- What becomes of an argument that has passed for an Ethereum address.
use audius_reward_manager.Instructions.Builders
use audius_reward_manager.Prelude.{
  ◌≤◌, subst, refl, [], ◌∷◌, ◌≡◌, ◌≢◌, Bytes, length, drop, length-drop, eqb, arith, if◌then◌else◌,
  Bool-cases, inl, inr,
}
use audius_reward_manager.Outcome.{
  map_err, Result, ok, err, panic, ◌>>=◌, bind-eq_ok, return_if-eq_ok,
}
use audius_reward_manager.State.{Pubkey}
use audius_reward_manager.Runtime.{Env}
use audius_reward_manager.Cli.Client.{program, Error, Text, Client, ReadsHex}
use audius_reward_manager.Cli.Checks.{verdict, get_prefix, get_rest, is_hex, is_eth_address}
use audius_reward_manager.Cli.Transaction.{Config, sign}
use audius_reward_manager.Cli.Commands.{expect, command_delete_sender}
use audius_reward_manager.Cli.Main.{run, delete_sender}

verdict-eq_ok : (r : Result Error Bytes) → verdict r ≡ ok tt → (d : Bytes) × (r ≡ ok d)
verdict-eq_ok (ok d) h = (d, refl)
verdict-eq_ok (err e) h = cc
verdict-eq_ok panic h = cc

module _ (client : Client) where
  get_rest-eq_ok :
      {E : Type 0} (s : Text) {r : Text}
      → ◌≡◌ {A = Result E Text} (get_rest client s) (ok r)
      → (r ≡ drop 2 s) × (get_rest {E = Error} client s ≡ ok (drop 2 s)) × (2 ≤ length s)
  unfolding get_rest
  get_rest-eq_ok s h = ground arith

  -- What passes has at least two characters, and a hexadecimal text behind these.
  pub is_eth_address-eq_ok :
      (s : Text)
      → is_eth_address client s ≡ ok tt
      → (d : Bytes) × (client.hex_decode (drop 2 s) ≡ ok d)
        × (get_rest {E = Error} client s ≡ ok (drop 2 s))
        × (2 ≤ length s)
  unfolding is_eth_address is_hex
  is_eth_address-eq_ok s h =
      let (_, _, h₁) = bind-eq_ok (get_prefix client s) _ h in
      let (_, h₂) = return_if-eq_ok _ _ _ h₁ in
      let (rest, fits, h₃) = bind-eq_ok (get_rest client s) _ h₂ in
      let (e, fits', long) = get_rest-eq_ok s fits in
      let (d, decoded) = verdict-eq_ok (client.hex_decode rest) h₃ in
      (d, subst (λ (r : Text). client.hex_decode r ≡ ok d) e decoded, fits', long)

  module _ (env : Env) (config : Config) (id fresh_manager fresh_vault : Pubkey)
      (hex : ReadsHex client) where
    -- Where `hex` reads as documented: for an argument that has passed for an Ethereum address,
    -- `delete-sender` builds and signs the instruction for the 20 bytes that its digits stand for if
    -- it has 42 characters, and panics if it has any other number.
    pub delete_sender-is_eth_address :
        (reward_manager : Pubkey) (s : Text)
        → is_eth_address client s ≡ ok tt
        → (d : Bytes) × (client.hex_decode (drop 2 s) ≡ ok d)
          × (run env client config id fresh_manager fresh_vault (delete_sender reward_manager s) ≡ (
              if eqb (length s) 42
              then map_err program
                  (Builders.delete_sender env id reward_manager config.owner config.fee_payer d)
                >>= (λ instruction.
                    sign client config
                      (record {
                        instructions = instruction ∷ [];
                        signers = config.fee_payer ∷ config.owner ∷ [];
                      })
                      0)
              else panic))
    unfolding run command_delete_sender expect ◌>>=◌
    delete_sender-is_eth_address reward_manager s h =
        let (d, decoded, fits, long) = is_eth_address-eq_ok s h in
        let size = hex.decoded_size (drop 2 s) d decoded in
        let cut = length-drop 2 s in
        (
          d,
          decoded,
          elim (Bool-cases (eqb (length s) 42)) [
            | inl full ↦
                let n : length d ≡ 20 = ground arith in
                rw (full, fits, hex.array_of 20 (drop 2 s) d decoded n)
            | inr other ↦
                let n : length d ≢ 20 = λ e. ground arith in
                let (_, refused) = hex.array_refused 20 (drop 2 s) d decoded n in
                rw (other, fits, refused)
          ],
        )
