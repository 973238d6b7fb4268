-- ===== src/Cli/Checks.antt =====
-- cli/src/utils.rs: the validators of the arguments.
use audius_reward_manager.Prelude.{
  Bytes, ◌||◌, [], ◌∷◌, ◌==◌, length, take, drop, ltb, not, if◌then◌else◌,
}
use audius_reward_manager.Outcome.{Result, ok, err, panic, ⊤, ◌>>=◌, ◌>>◌, return_if}
use audius_reward_manager.Cli.Client.{Error, Text, Client}

-- "0x"
abbrev pub eth_address_prefix : Text
eth_address_prefix = b'0' ∷ b'x' ∷ []

-- r".+\.csv$"
abbrev pub csv_pattern : Text
csv_pattern = b'.' ∷ b'+' ∷ b'\\' ∷ b'.' ∷ b'c' ∷ b's' ∷ b'v' ∷ b'$' ∷ []

-- The texts of the errors, which are only shown.
pub data Complaint : Type 0 where
  wrong_hex_string wrong_address_prefix wrong_path_to_csv_file : Complaint

-- `s.get(0..2).unwrap()`: a range that ends past the end, or within a character, is `None`.
unfoldable pub get_prefix : {E : Type 0} → Client → Text → Result E Text
get_prefix client s =
    if ltb (length s) 2 || not (client.is_char_boundary s 2) then panic else ok (take 2 s)

-- `s.get(2..).unwrap()`
unfoldable pub get_rest : {E : Type 0} → Client → Text → Result E Text
get_rest client s =
    if ltb (length s) 2 || not (client.is_char_boundary s 2) then panic else ok (drop 2 s)

-- The answer of `is_hex` to what `hex::decode` gives.
abbrev pub verdict : Result Error Bytes → Result Complaint ⊤
verdict (ok _) = ok tt
verdict (err _) = err wrong_hex_string
verdict panic = panic

unfoldable pub is_hex : Client → Text → Result Complaint ⊤
is_hex client s = verdict (client.hex_decode s)

unfoldable pub is_eth_address : Client → Text → Result Complaint ⊤
unfolding get_prefix get_rest is_hex
is_eth_address client s = do
  prefix ← get_prefix client s
  return_if (not (prefix == eth_address_prefix)) wrong_address_prefix
  rest ← get_rest client s
  is_hex client rest

unfoldable pub is_csv_file : Client → Text → Result Complaint ⊤
is_csv_file client s = if client.is_match csv_pattern s then ok tt else err wrong_path_to_csv_file
