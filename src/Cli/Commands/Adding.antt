-- ===== src/Cli/Commands/Adding.antt =====
-- What the transaction of `command_add_sender` holds, and what it does on the chain.
use audius_reward_manager.Prelude.{◌≡◌, List, [], ◌∷◌, ◌++◌, some}
use audius_reward_manager.Outcome.{Result, ok, bind-eq_ok, map_err-eq_ok}
use audius_reward_manager.State.{Pubkey, EthereumAddress}
use audius_reward_manager.Instructions.{Instructions}
use audius_reward_manager.Instructions.Builders.{add_sender}
use audius_reward_manager.Runtime.{Instruction, Env}
use audius_reward_manager.Utils.Verify.{add_sender_message}
use audius_reward_manager.Cli.Client.{Error, Text, SecretKey, SenderData, Client}
use audius_reward_manager.Cli.Transaction.{Config, OnchainTransaction}
use audius_reward_manager.Cli.Signing.{sign_message}
use audius_reward_manager.Cli.Commands.{read_keys, command_add_sender}
use audius_reward_manager.Cli.Commands.Signed.{expect-eq_ok, sign-eq_ok}

module _ (env : Env) (client : Client) (config : Config) (id reward_manager : Pubkey) where
  -- What stands in the transaction for a new sender: the signatures of the message that the program
  -- expects of the senders, by the keys of the file, and last the instruction that adds the sender.
  pub record AddingPlan (new_sender operator_address senders_secrets : Text)
      (tx : OnchainTransaction) : Type 0 where
    pub rows : List (Result Error SenderData)
    pub rows_read : client.read_rows senders_secrets ≡ ok rows
    pub sender : EthereumAddress
    pub sender_decoded : client.from_hex 20 new_sender ≡ ok sender
    pub operator : EthereumAddress
    pub operator_decoded : client.from_hex 20 operator_address ≡ ok operator
    pub senders : List Pubkey
    pub secrets : List SecretKey
    pub keys_read : read_keys env client config id rows ≡ ok (senders, secrets)
    pub signed : List Instruction
    pub signed_lem :
        sign_message env client (add_sender_message reward_manager sender) secrets ≡ ok signed
    pub last : Instruction
    pub built : add_sender env id reward_manager config.fee_payer sender operator senders ≡ ok last
    pub instructions_lem : tx.instructions ≡ signed ++ last ∷ []
    pub signers_lem : tx.signers ≡ config.fee_payer ∷ config.owner ∷ []
    pub payer_lem : tx.payer ≡ config.fee_payer

  -- The transaction that `command_add_sender` gives is built for the sender and the operator that
  -- were asked for: the keys of the file sign the message that the program expects for this sender,
  -- and the instruction that adds it, by the accounts of the file, comes last; the fee payer and the
  -- owner sign the transaction.
  pub command_add_sender-eq_ok :
      (new_sender operator_address senders_secrets : Text) {tx : OnchainTransaction}
      → command_add_sender env client config id reward_manager new_sender operator_address
          senders_secrets
        ≡ ok (some tx)
      → AddingPlan new_sender operator_address senders_secrets tx
  unfolding command_add_sender add_sender_message
  command_add_sender-eq_ok new_sender operator_address senders_secrets h =
      let (rows, rows_read, h₁) = bind-eq_ok _ _ h in
      let (sender, sender_decoded, h₂) = bind-eq_ok _ _ h₁ in
      let (operator, operator_decoded, h₃) = bind-eq_ok _ _ h₂ in
      let ((senders, secrets), keys_read, h₄) = bind-eq_ok _ _ h₃ in
      let (signed, signed_lem, h₅) = bind-eq_ok _ _ h₄ in
      let (last, built, h₆) = bind-eq_ok _ _ h₅ in
      let (_, _, h₇) = bind-eq_ok _ _ h₆ in
      let (instructions, signers, payer) = sign-eq_ok env client config id _ 0 h₇ in
      record {
        rows = rows;
        rows_read = rows_read;
        sender = sender;
        sender_decoded = expect-eq_ok _ sender_decoded;
        operator = operator;
        operator_decoded = expect-eq_ok _ operator_decoded;
        senders = senders;
        secrets = secrets;
        keys_read = keys_read;
        signed = signed;
        signed_lem = signed_lem;
        last = last;
        built = map_err-eq_ok _ _ built;
        instructions_lem = instructions;
        signers_lem = signers;
        payer_lem = payer;
      }
