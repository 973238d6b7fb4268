-- ===== src/Cli/Arguments/Declared.antt =====
-- The arguments that `main` declares are those that it reads.
use Prim.Native.String.{String}
use text.Mathlib.Text.{◌==◌ as str_eq}
use audius_reward_manager.Prelude.{
  ◌≡◌, refl, subst, sym, List, [], ◌∷◌, true, Option, none, some, if◌then◌else◌, Bool-cases, inl,
  inr,
}
use mathlib.Core.Option.{none-ne-some, some-injective}
use audius_reward_manager.Prelude.Predicates.{All}
use audius_reward_manager.Outcome.{Result, ok, ⊤, ◌>>=◌}
use audius_reward_manager.Cli.Client.{Error, Text, Client}
use audius_reward_manager.Cli.Checks.{Complaint, is_hex, is_eth_address, is_csv_file}
use audius_reward_manager.Cli.Main.{
  Subcommand, init, create_sender, delete_sender, add_sender, transfer,
}
use audius_reward_manager.Cli.Arguments.{Validator, Arg, Clap, Parses, with_name}
use audius_reward_manager.Cli.Arguments.Subcommands.{
  init_args, create_sender_args, delete_sender_args, add_sender_args, transfer_args, subcommands,
}
use audius_reward_manager.Cli.Arguments.Matches.{
  ArgMatches, unwrap, read_init, read_create_sender, read_delete_sender, read_add_sender,
  read_transfer, read_subcommand,
}

-- The arguments that are declared under a name.
abbrev pub declared : String → List (String × List Arg) → Option (List Arg)
declared name [] = none
declared name ((n, args) ∷ rest) = if str_eq name n then some args else declared name rest

abbrev pub accepts : Option Validator → Text → Result Complaint ⊤
accepts none s = ok tt
accepts (some validator) s = validator s

-- What `clap` documents of an argument of the matches that it gives: one that is required has a
-- value, and the validator accepts every value.
pub record IsAdmitted (m : ArgMatches) (arg : Arg) : Type 0 where
  pub given : arg.required ≡ true → (s : Text) × (m arg.name ≡ some s)
  pub valid : (s : Text) → m arg.name ≡ some s → accepts arg.validator s ≡ ok tt

value :
    (m : ArgMatches) (arg : Arg)
    → IsAdmitted m arg
    → arg.required ≡ true
    → (s : Text) × (m arg.name ≡ some s) × (accepts arg.validator s ≡ ok tt)
value m arg a required = let (s, found) = a.given required in (s, found, a.valid s found)

module _ (client : Client) (clap : Clap) (parses : Parses clap) where
  -- The texts of a subcommand have passed their validators.
  abbrev pub IsValidated : Subcommand → Type 0
  IsValidated (init _ _) = Unit
  IsValidated (create_sender _ sender operator) =
      (is_eth_address client sender ≡ ok tt) × (is_eth_address client operator ≡ ok tt)
  IsValidated (delete_sender _ sender) = is_eth_address client sender ≡ ok tt
  IsValidated (add_sender _ sender operator secrets) =
      (is_eth_address client sender ≡ ok tt)
      × (is_eth_address client operator ≡ ok tt)
      × (is_csv_file client secrets ≡ ok tt)
  IsValidated (transfer _ _ oracle_secret secrets _ recipient _) =
      (is_hex client oracle_secret ≡ ok tt)
      × (is_csv_file client secrets ≡ ok tt)
      × (is_eth_address client recipient ≡ ok tt)

  abbrev pub Reads : Result Error Subcommand → Type 0
  Reads r = (s : Subcommand) × (r ≡ ok s) × IsValidated s

  module _ (m : ArgMatches) where
    read_init-Reads : All (IsAdmitted m) (init_args client clap) → Reads (read_init clap m)
    unfolding read_init init_args with_name unwrap ◌>>=◌
    read_init-Reads (a, (b, _)) =
        let (mint, found, fits) = value m _ a refl in
        let (votes, found', fits') = value m _ b refl in
        let (k, parsed) = parses.reads_pubkey mint fits in
        let (n, parsed') = parses.reads_u8 votes fits' in
        (init k n, rw (found, parsed, found', parsed'), tt)

    read_create_sender-Reads :
        All (IsAdmitted m) (create_sender_args client clap) → Reads (read_create_sender clap m)
    unfolding read_create_sender create_sender_args with_name unwrap ◌>>=◌
    read_create_sender-Reads (a, (b, (c, _))) =
        let (manager, found, fits) = value m _ a refl in
        let (sender, found', fits') = value m _ b refl in
        let (operator, found'', fits'') = value m _ c refl in
        let (k, parsed) = parses.reads_pubkey manager fits in
        (
          create_sender k sender operator,
          rw (
            found,
            parsed,
            found',
            parses.reads_string sender,
            found'',
            parses.reads_string operator,
          ),
          (fits', fits''),
        )

    read_delete_sender-Reads :
        All (IsAdmitted m) (delete_sender_args client clap) → Reads (read_delete_sender clap m)
    unfolding read_delete_sender delete_sender_args with_name unwrap ◌>>=◌
    read_delete_sender-Reads (a, (b, _)) =
        let (manager, found, fits) = value m _ a refl in
        let (sender, found', fits') = value m _ b refl in
        let (k, parsed) = parses.reads_pubkey manager fits in
        (delete_sender k sender, rw (found, parsed, found', parses.reads_string sender), fits')

    read_add_sender-Reads :
        All (IsAdmitted m) (add_sender_args client clap) → Reads (read_add_sender clap m)
    unfolding read_add_sender add_sender_args with_name unwrap ◌>>=◌
    read_add_sender-Reads (a, (b, (c, (d, _)))) =
        let (manager, found, fits) = value m _ a refl in
        let (sender, found₁, fits₁) = value m _ b refl in
        let (operator, found₂, fits₂) = value m _ c refl in
        let (secrets, found₃, fits₃) = value m _ d refl in
        let (k, parsed) = parses.reads_pubkey manager fits in
        (
          add_sender k sender operator secrets,
          rw (
            found,
            parsed,
            found₁,
            parses.reads_string sender,
            found₂,
            parses.reads_string operator,
            found₃,
            parses.reads_string secrets,
          ),
          (fits₁, fits₂, fits₃),
        )

    read_transfer-Reads :
        All (IsAdmitted m) (transfer_args client clap) → Reads (read_transfer clap m)
    unfolding read_transfer transfer_args with_name unwrap ◌>>=◌
    read_transfer-Reads (a, (b, (c, (d, (e, (f, (g, _))))))) =
        let (manager, found, fits) = value m _ a refl in
        let (oracle, found₁, fits₁) = value m _ b refl in
        let (oracle_secret, found₂, fits₂) = value m _ c refl in
        let (secrets, found₃, fits₃) = value m _ d refl in
        let (id, found₄, _) = value m _ e refl in
        let (recipient, found₅, fits₅) = value m _ f refl in
        let (amount, found₆, fits₆) = value m _ g refl in
        let (k, parsed) = parses.reads_pubkey manager fits in
        let (k₁, parsed₁) = parses.reads_pubkey oracle fits₁ in
        let (x, parsed₆) = parses.reads_f64 amount fits₆ in
        (
          transfer k k₁ oracle_secret secrets id recipient x,
          rw (
            found,
            parsed,
            found₁,
            parsed₁,
            found₂,
            parses.reads_string oracle_secret,
            found₃,
            parses.reads_string secrets,
            found₄,
            parses.reads_string id,
            found₅,
            parses.reads_string recipient,
            found₆,
            parsed₆,
          ),
          (fits₂, fits₃, fits₅),
        )

    -- One arm of the `match`, and one declared subcommand.
    arm :
        (name n : String) (its : List Arg) (rest : List (String × List Arg)) {args : List Arg}
        {here there : Result Error Subcommand}
        → declared name ((n, its) ∷ rest) ≡ some args
        → All (IsAdmitted m) args
        → (All (IsAdmitted m) its → Reads here)
        → (declared name rest ≡ some args → Reads there)
        → Reads (if str_eq name n then here else there)
    arm name n its rest h all here there = elim (Bool-cases (str_eq name n)) [
      | inl e ↦
          let h' = rw e at h in
          rw e (here (subst (All (IsAdmitted m)) (sym (some-injective _ _ h')) all))
      | inr e ↦ let h' = rw e at h in rw e (there h')
    ]

    -- What is declared is what is read. Where the parsers read what their validators accept: for
    -- every subcommand that `main` declares, and matches in which each of its required arguments has
    -- a value and the validators accept the values, `main` reads the arguments without a panic or an
    -- exit, and the addresses, the secret and the paths among them have passed their validators.
    pub read_subcommand-IsAdmitted :
        (name : String) (args : List Arg)
        → declared name (subcommands client clap) ≡ some args
        → All (IsAdmitted m) args
        → (s : Subcommand) × (read_subcommand clap name m ≡ ok s) × IsValidated s
    unfolding read_subcommand subcommands
    read_subcommand-IsAdmitted name args h all =
        let last = ("transfer", transfer_args client clap) ∷ [] in
        let fourth = ("add-sender", add_sender_args client clap) ∷ last in
        let third = ("delete-sender", delete_sender_args client clap) ∷ fourth in
        let second = ("create-sender", create_sender_args client clap) ∷ third in
        arm name "init" (init_args client clap) second h all read_init-Reads (λ h₁.
          arm name "create-sender" (create_sender_args client clap) third h₁ all
            read_create_sender-Reads
            (λ h₂.
              arm name "delete-sender" (delete_sender_args client clap) fourth h₂ all
                read_delete_sender-Reads
                (λ h₃.
                  arm name "add-sender" (add_sender_args client clap) last h₃ all
                    read_add_sender-Reads
                    (λ h₄.
                      arm name "transfer" (transfer_args client clap) [] h₄ all read_transfer-Reads
                        (λ h₅. absurd (none-ne-some _ h₅))))))
