-- ===== src/Cli/Client.antt =====
-- What the client uses of other crates, as parameters, and the errors that it passes on.
use audius_reward_manager.Prelude.{◌*◌, ◌≢◌, ℕ, ◌≡◌, Bool, Bytes, List, length}
use audius_reward_manager.Outcome.{err, ok, Result}
use audius_reward_manager.Error.{ProgramError}
use audius_reward_manager.State.{Pubkey, EthereumAddress}
use audius_reward_manager.Runtime.{Instruction, PubkeyError}

-- cli/src/main.rs: `Box<dyn std::error::Error>`, by what is in the box. `other` is an error of
-- another crate, by a number that the client never looks at.
pub data Error : Type 0 where
  program : ProgramError → Error
  pubkey : PubkeyError → Error
  insufficient_balance : Pubkey → (required available : ℕ) → Error
  other : ℕ → Error

-- `solana_sdk::secp256k1_instruction::SecpSignatureOffsets`
pub record SecpSignatureOffsets : Type 0 where
  pub signature_offset : ℕ
  pub signature_instruction_index : ℕ
  pub eth_address_offset : ℕ
  pub eth_address_instruction_index : ℕ
  pub message_data_offset : ℕ
  pub message_data_size : ℕ
  pub message_instruction_index : ℕ

-- `secp256k1::SecretKey` and `secp256k1::PublicKey`, by their bytes
abbrev pub SecretKey : Type 0
SecretKey = Bytes

abbrev pub PublicKey : Type 0
PublicKey = Bytes

-- Text, by its bytes in UTF-8.
abbrev pub Text : Type 0
Text = Bytes

-- cli/src/utils.rs: a row of the file with the senders' keys
pub record SenderData : Type 0 where
  pub solana_key : Text
  pub eth_secret : Text

-- An `f64`, by its bytes.
abbrev pub Float : Type 0
Float = Bytes

pub record Client : Type 0 where
  -- spl_token
  pub ui_amount_to_amount : Float → (decimals : ℕ) → ℕ
  -- libsecp256k1, sha3
  pub from_secret_key : SecretKey → PublicKey
  pub keccak256 : Bytes → Bytes
  pub sign : Bytes → SecretKey → Bytes × ℕ
  pub parse_secret_key : Bytes → Result Error SecretKey
  -- solana_sdk::secp256k1_instruction, bincode
  pub construct_eth_pubkey : PublicKey → EthereumAddress
  pub data_start : ℕ
  pub signature_serialized_size : ℕ
  pub serialize_offsets : SecpSignatureOffsets → Bytes
  -- core::str, hex, regex
  pub is_char_boundary : Text → ℕ → Bool
  pub hex_decode : Text → Result Error Bytes
  pub from_hex : (size : ℕ) → Text → Result Error Bytes
  pub is_match : (pattern text : Text) → Bool
  -- csv: opening a file, and its rows, each of which may be malformed
  pub read_rows : Text → Result Error (List (Result Error SenderData))
  -- solana_client: what the cluster answers
  pub get_balance : Pubkey → Result Error ℕ
  pub get_minimum_balance_for_rent_exemption : ℕ → Result Error ℕ
  pub get_account_data : Pubkey → Result Error Bytes
  pub get_recent_blockhash : Result Error (Bytes × ℕ)
  -- solana_sdk, spl_token, claimable_tokens
  pub calculate_fee : ℕ → List Instruction → Pubkey → ℕ
  -- Whether `Transaction::sign`, with these keys, signs the transaction of these instructions and
  -- this payer: it panics if a key is none of the required signers, or if one of these is missing.
  pub can_sign : List Instruction → (payer : Pubkey) → (signers : List Pubkey) → Bool
  pub pubkey_from_str : Text → Result Error Pubkey
  pub create_account : (from to : Pubkey) → (lamports space : ℕ) → (owner : Pubkey) → Instruction
  pub token_account_len : ℕ
  pub native_decimals : ℕ
  pub claimable_init :
      (program_id payer mint : Pubkey) → EthereumAddress → Result ProgramError Instruction

-- The documented sizes: an address has 20 bytes, a hash 32, a signature 64, and the header of a
-- signature instruction is one byte and 11 bytes of offsets.
pub record HasSizes (client : Client) : Type 0 where
  pub address_size : (k : PublicKey) → length (client.construct_eth_pubkey k) ≡ 20
  pub hash_size : (m : Bytes) → length (client.keccak256 m) ≡ 32
  pub signature_size : (h : Bytes) (k : SecretKey) → length ((client.sign h k).0) ≡ 64
  pub serialized_size : client.signature_serialized_size ≡ 64
  pub header_size : client.data_start ≡ 12
  pub offsets_size : (o : SecpSignatureOffsets) → length (client.serialize_offsets o) ≡ 11

-- What `hex` documents: two digits for each byte, and an array only from as many bytes.
pub record ReadsHex (client : Client) : Type 0 where
  pub decoded_size : (s : Text) (d : Bytes) → client.hex_decode s ≡ ok d → length s ≡ 2 * length d
  pub array_of :
      (n : ℕ) (s : Text) (d : Bytes)
      → client.hex_decode s ≡ ok d
      → length d ≡ n
      → client.from_hex n s ≡ ok d
  pub array_refused :
      (n : ℕ) (s : Text) (d : Bytes)
      → client.hex_decode s ≡ ok d
      → length d ≢ n
      → (e : Error) × (client.from_hex n s ≡ err e)
