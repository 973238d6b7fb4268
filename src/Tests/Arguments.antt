-- ===== src/Tests/Arguments.antt =====
-- Arguments of the concrete client.
use text.Mathlib.Text.{◌==◌ as str_eq}
use mathlib.Core.Option.{some-injective}
use audius_reward_manager.Prelude.{
  true, ◌≡◌, refl, subst, ℕ, ◌==◌, length, replicate, take, drop, eqb, true, arith, Option, none,
  some, if◌then◌else◌,
}
use audius_reward_manager.Prelude.Predicates.{All}
use audius_reward_manager.Outcome.{Result, ok, err, ⊤, ◌>>=◌, return_if}
use audius_reward_manager.State.{Pubkey}
use audius_reward_manager.Cli.Client.{Error, Text, other}
use audius_reward_manager.Cli.Checks.{Complaint, wrong_hex_string, is_hex, is_eth_address}
use audius_reward_manager.Cli.Main.{Subcommand}
use audius_reward_manager.Cli.Arguments.{Clap, Parses, with_name}
use audius_reward_manager.Cli.Arguments.Subcommands.{delete_sender_args, subcommands}
use audius_reward_manager.Cli.Arguments.Matches.{ArgMatches, read_subcommand}
use audius_reward_manager.Cli.Arguments.Declared.{
  IsAdmitted, IsValidated, read_subcommand-IsAdmitted,
}
use audius_reward_manager.Tests.Scene.{key}
use audius_reward_manager.Tests.Chain.{first}
use audius_reward_manager.Tests.Desk.{client}
use audius_reward_manager.Tests.Commands.{address}

-- A value of `n` bytes.
abbrev is_sized : ℕ → Text → Result Complaint ⊤
is_sized n s = if eqb (length s) n then ok tt else err wrong_hex_string

abbrev pubkey_of_value : Option Text → Option Pubkey
pubkey_of_value none = none
pubkey_of_value (some s) = if eqb (length s) 32 then some s else none

abbrev u8_of_value : Option Text → Result Error ℕ
u8_of_value none = err (other 7)
u8_of_value (some s) = if eqb (length s) 1 then ok (first s) else err (other 8)

abbrev pub text_of_value : Option Text → Result Error Text
text_of_value none = err (other 7)
text_of_value (some s) = ok s

abbrev pub clap : Clap
clap = record {
  config_file = none;
  is_url = λ _. ok tt;
  is_keypair = λ _. ok tt;
  is_pubkey = is_sized 32;
  is_parsable_u8 = is_sized 1;
  is_parsable_string = λ _. ok tt;
  is_parsable_f64 = λ _. ok tt;
  pubkey_of = pubkey_of_value;
  value_t_or_exit_u8 = u8_of_value;
  value_t_or_exit_string = text_of_value;
  value_t_or_exit_f64 = text_of_value;
}

is_sized-eq_ok : (n : ℕ) (s : Text) → is_sized n s ≡ ok tt → eqb (length s) n ≡ true
is_sized-eq_ok n s h = ground arith

clap-Parses : Parses clap
clap-Parses = record {
  reads_pubkey = λ s h. (s, rw (is_sized-eq_ok 32 s h));
  reads_u8 = λ s h. (first s, rw (is_sized-eq_ok 1 s h));
  reads_string = λ s. refl;
  reads_f64 = λ s _. (s, refl);
}

abbrev pub matches : ArgMatches
matches name =
    if str_eq name "reward-manager"
    then some (key 10)
    else if str_eq name "eth-sender-address"
    then some address
    else none

admitted : All (IsAdmitted matches) (delete_sender_args client clap)
unfolding delete_sender_args with_name is_eth_address is_hex ◌>>=◌ return_if ◌==◌ take drop
    replicate
admitted = (
  record {
    given = λ _. (key 10, refl);
    valid = λ s h. subst (λ (x : Text). is_sized 32 x ≡ ok tt) (some-injective _ _ h) refl;
  },
  (
    record {
      given = λ _. (address, refl);
      valid =
          λ s h. subst (λ (x : Text). is_eth_address client x ≡ ok tt) (some-injective _ _ h) refl;
    },
    tt,
  ),
)

read_subcommand-IsAdmitted_example :
    (s : Subcommand) × (read_subcommand clap "delete-sender" matches ≡ ok s)
    × IsValidated client clap clap-Parses s
unfolding subcommands
read_subcommand-IsAdmitted_example =
    read_subcommand-IsAdmitted client clap clap-Parses matches "delete-sender"
      (delete_sender_args client clap) refl admitted
