-- ===== src/Tests/Desk.antt =====
-- A concrete client: one way in which everything that the client relies on can hold. An Ethereum
-- address is named by the first byte of its key.
use audius_reward_manager.Prelude.{
  List, ◌++◌, Bool, contains, ◌&&◌, false, suc, zero, sym, ap, ℕ, ◌+◌, ◌-◌, ◌*◌, ◌≡◌, ◌≢◌, refl, [],
  ◌∷◌, true, Bytes, length, length-replicate, replicate, eqb, ltb, arith, if◌then◌else◌,
}
use audius_reward_manager.Outcome.{Result, ok, err, panic, ok-injective}
use audius_reward_manager.Cli.Client.{Error, other, SenderData, Text, Client, HasSizes, ReadsHex}
use audius_reward_manager.State.{Pubkey}
use audius_reward_manager.Runtime.{AccountMeta, Instruction}
use audius_reward_manager.Tests.Chain.{first}
use audius_reward_manager.Tests.Scene.{ledger, eth, sender_key}

-- The value of a hexadecimal digit, in lower case.
abbrev digit : ℕ → ℕ
digit c = if ltb c b'a' then c - b'0' else c - b'a' + 10

abbrev prefixed : ℕ → Result Error Bytes → Result Error Bytes
prefixed b (ok d) = ok (b ∷ d)
prefixed b (err e) = err e
prefixed b panic = panic

abbrev decode_pairs : Text → Result Error Bytes
decode_pairs [] = ok []
decode_pairs (a ∷ []) = err (other 5)
decode_pairs (a ∷ b ∷ s) = prefixed (digit a * 16 + digit b) (decode_pairs s)

abbrev decode_array : ℕ → Result Error Bytes → Result Error Bytes
decode_array n (ok d) = if eqb (length d) n then ok d else err (other 6)
decode_array n (err e) = err e
decode_array n panic = panic

-- The digits `a` and `c`, `n` times.
abbrev pub pairs : ℕ → ℕ → ℕ → Text
pairs a c zero = []
pairs a c (suc n) = a ∷ c ∷ pairs a c n

abbrev pub digits : ℕ → ℕ → Text
digits = pairs b'1'

abbrev row : ℕ → Bytes → Result Error SenderData
row c k = ok (record { solana_key = k; eth_secret = digits c 32 })

-- The data of the accounts on the concrete chain.
abbrev account_data : Bytes → Result Error Bytes
account_data [] = err (other 7)
account_data (b ∷ d) = ok (b ∷ d)

-- The accounts that have to sign an instruction.
abbrev signs : List AccountMeta → List Pubkey
signs [] = []
signs (m ∷ metas) = if m.is_signer then m.pubkey ∷ signs metas else signs metas

abbrev required : List Instruction → List Pubkey
required [] = []
required (ix ∷ ixs) = signs ix.accounts ++ required ixs

abbrev are_in : List Pubkey → List Pubkey → Bool
are_in keys [] = true
are_in keys (k ∷ ks) = contains keys k && are_in keys ks

abbrev pub client : Client
client = record {
  ui_amount_to_amount = λ f _. first f;
  from_secret_key = λ k. k;
  keccak256 = λ _. replicate 32 0;
  sign = λ _ k. (replicate 64 (first k), 0);
  parse_secret_key = λ k. ok k;
  construct_eth_pubkey = λ k. replicate 20 (first k);
  data_start = 12;
  signature_serialized_size = 64;
  serialize_offsets = λ o. replicate 11 o.signature_instruction_index;
  is_char_boundary = λ _ _. true;
  hex_decode = decode_pairs;
  from_hex = λ n s. decode_array n (decode_pairs s);
  is_match = λ _ _. true;
  read_rows = λ _. ok (row b'5' (sender_key (eth 21)) ∷ row b'6' (sender_key (eth 22)) ∷ []);
  get_balance = λ _. ok 100;
  get_minimum_balance_for_rent_exemption = λ n. ok n;
  get_account_data = λ k. account_data (ledger k).bytes;
  get_recent_blockhash = ok ([], 1);
  calculate_fee = λ c ixs _. c * length ixs;
  can_sign =
      λ ixs payer keys. are_in (payer ∷ required ixs) keys && are_in keys (payer ∷ required ixs);
  pubkey_from_str = λ s. ok s;
  create_account = λ from to lamports space owner. record {
    program_id = 4 ∷ [];
    accounts =
        record { pubkey = from; is_signer = true; is_writable = true }
        ∷ record { pubkey = to; is_signer = true; is_writable = true }
        ∷ [];
    bytes = lamports ∷ space ∷ owner;
  };
  token_account_len = 165;
  native_decimals = 9;
  claimable_init = λ p _ _ _. ok (record { program_id = p; accounts = []; bytes = [] });
}

pub client-HasSizes : HasSizes client
client-HasSizes = record {
  address_size = λ k. length-replicate 20 (first k);
  hash_size = λ _. length-replicate {0} 32 0;
  signature_size = λ _ k. length-replicate 64 (first k);
  serialized_size = refl;
  header_size = refl;
  offsets_size = λ o. length-replicate 11 o.signature_instruction_index;
}

prefixed-eq_ok :
    (b : ℕ) (r : Result Error Bytes) {d : Bytes}
    → prefixed b r ≡ ok d
    → (e : Bytes) × (r ≡ ok e) × (length d ≡ suc (length e))
prefixed-eq_ok b (ok e) h = (e, refl, sym (ap length (ok-injective h)))
prefixed-eq_ok b (err e) h = cc
prefixed-eq_ok b panic h = cc

decode_pairs-size : (s : Text) (d : Bytes) → decode_pairs s ≡ ok d → length s ≡ 2 * length d
decode_pairs-size [] d h = omega (arith, ap length (ok-injective h))
decode_pairs-size (a ∷ []) d h = cc
decode_pairs-size (a ∷ b ∷ s) d h =
    let (e, read, n) = prefixed-eq_ok (digit a * 16 + digit b) (decode_pairs s) h in
    omega (arith, n, decode_pairs-size s e read)

eqb_of_eq : (a b : ℕ) → a ≡ b → eqb a b ≡ true
eqb_of_eq a b h = ground arith

eqb_of_ne : (a b : ℕ) → a ≢ b → eqb a b ≡ false
eqb_of_ne a b h = ground arith

array_of-lem :
    (n : ℕ) (s : Text) (d : Bytes)
    → decode_pairs s ≡ ok d
    → length d ≡ n
    → decode_array n (decode_pairs s) ≡ ok d
array_of-lem n s d h e = rw (h, eqb_of_eq (length d) n e)

array_refused-lem :
    (n : ℕ) (s : Text) (d : Bytes)
    → decode_pairs s ≡ ok d
    → length d ≢ n
    → (e : Error) × (decode_array n (decode_pairs s) ≡ err e)
array_refused-lem n s d h ne = (other 6, rw (h, eqb_of_ne (length d) n ne))

pub client-ReadsHex : ReadsHex client
client-ReadsHex = record {
  decoded_size = decode_pairs-size;
  array_of = array_of-lem;
  array_refused = array_refused-lem;
}
