-- ===== src/Cli/Arguments.antt =====
-- cli/src/main.rs: the arguments that `main` declares to `clap`, without their help.
pub mod Subcommands
pub mod Matches
pub mod Declared
use Prim.Native.String.{String}
use audius_reward_manager.Prelude.{ℕ, ◌≡◌, List, [], ◌∷◌, Bool, true, false, Option, none, some}
use audius_reward_manager.Outcome.{Result, ok, ⊤}
use audius_reward_manager.State.{Pubkey}
use audius_reward_manager.Cli.Client.{Error, Text, Float}
use audius_reward_manager.Cli.Checks.{Complaint}

abbrev pub Validator : Type 0
Validator = Text → Result Complaint ⊤

-- `clap::Arg`, by what is set.
pub record Arg : Type 0 where
  pub name : String
  pub short : Option String
  pub long : Option String
  pub value_name : Option String
  pub validator : Option Validator
  pub default_value : Option Text
  pub takes_value : Bool
  pub required : Bool
  pub global : Bool

-- What the client uses of `solana_clap_utils` and of the macros of `clap`. The `value_t_or_exit`
-- take what an argument has as value; an error ends the process.
pub record Clap : Type 0 where
  pub config_file : Option Text
  pub is_url : Validator
  pub is_keypair : Validator
  pub is_pubkey : Validator
  pub is_parsable_u8 : Validator
  pub is_parsable_string : Validator
  pub is_parsable_f64 : Validator
  pub pubkey_of : Option Text → Option Pubkey
  pub value_t_or_exit_u8 : Option Text → Result Error ℕ
  pub value_t_or_exit_string : Option Text → Result Error Text
  pub value_t_or_exit_f64 : Option Text → Result Error Float

-- What they document: a validator accepts what the parser of the same type then reads.
pub record Parses (clap : Clap) : Type 0 where
  pub reads_pubkey :
      (s : Text) → clap.is_pubkey s ≡ ok tt → (k : Pubkey) × (clap.pubkey_of (some s) ≡ some k)
  pub reads_u8 :
      (s : Text)
      → clap.is_parsable_u8 s ≡ ok tt
      → (n : ℕ) × (clap.value_t_or_exit_u8 (some s) ≡ ok n)
  pub reads_string : (s : Text) → clap.value_t_or_exit_string (some s) ≡ ok s
  pub reads_f64 :
      (s : Text)
      → clap.is_parsable_f64 s ≡ ok tt
      → (x : Float) × (clap.value_t_or_exit_f64 (some s) ≡ ok x)

-- An argument of which only the name is set.
unfoldable pub with_name : String → Arg
with_name name = record {
  name = name;
  short = none;
  long = none;
  value_name = none;
  validator = none;
  default_value = none;
  takes_value = false;
  required = false;
  global = false;
}

module _ (clap : Clap) where
  -- The arguments before the subcommand.
  unfoldable pub app_args : List Arg
  unfolding with_name
  app_args =
      record (with_name "config_file") {
        short = some "C";
        long = some "config";
        value_name = some "PATH";
        takes_value = true;
        global = true;
        default_value = clap.config_file;
      }
      ∷ record (with_name "verbose") {
        long = some "verbose";
        short = some "v";
        takes_value = false;
        global = true;
      }
      ∷ record (with_name "json_rpc_url") {
        long = some "url";
        value_name = some "URL";
        takes_value = true;
        validator = some clap.is_url;
      }
      ∷ record (with_name "owner") {
        long = some "owner";
        value_name = some "KEYPAIR";
        validator = some clap.is_keypair;
        takes_value = true;
      }
      ∷ record (with_name "fee_payer") {
        long = some "fee-payer";
        value_name = some "KEYPAIR";
        validator = some clap.is_keypair;
        takes_value = true;
      }
      ∷ []
