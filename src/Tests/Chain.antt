-- ===== src/Tests/Chain.antt =====
-- A concrete chain: one way in which everything that the program relies on can hold.
use audius_reward_manager.Prelude.{
  length-append, ℕ, ◌+◌, ◌≡◌, refl, sym, ap, subst, List, [], ◌∷◌, ◌++◌, none, some, true, false,
  Bytes, ◌==◌, ==_iff, ==_refl, eqb→eq, ◌∙◌, length, take, drop, replicate, length-replicate,
  length-take, length-append, get_elem?, arith, eqb, if◌then◌else◌, ◌&&◌, Bool-cases, inl, inr,
}
use audius_reward_manager.Outcome.{Result, ok, err, ok-injective}
use audius_reward_manager.Error.{ProgramError, other}
use audius_reward_manager.State.{Pubkey, RewardManager, SenderAccount}
use audius_reward_manager.Instructions.{
  Instructions, init_reward_manager, create_sender, delete_sender, add_sender, transfer,
}
use audius_reward_manager.Runtime.{AccountMeta, Instruction, Ledger, Env, update}
use audius_reward_manager.Runtime.Laws.{KeepsOwned, IsRuntime}

abbrev pub first : Bytes → ℕ
first [] = 0
first (b ∷ d) = b

abbrev decode_sender : Bytes → Result ProgramError SenderAccount
decode_sender d =
    if eqb (length d) 73
    then ok (record {
      version = first d;
      reward_manager = take 32 (drop 1 d);
      eth_address = take 20 (drop 33 d);
      operator = take 20 (drop 53 d);
    })
    else err (other 1)

-- An array of `n` bytes.
abbrev fit : ℕ → Bytes → Bytes
fit n d = take n (d ++ replicate n 0)

abbrev pub encode_sender : SenderAccount → Bytes
encode_sender s =
    s.version ∷ (fit 32 s.reward_manager ++ (fit 20 s.eth_address ++ fit 20 s.operator))

abbrev decode_manager : Bytes → Result ProgramError RewardManager
decode_manager d =
    if eqb (length d) 66
    then ok (record {
      version = first d;
      token_account = take 32 (drop 1 d);
      manager = take 32 (drop 33 d);
      min_votes = first (drop 65 d);
    })
    else err (other 1)

abbrev pub encode_manager : RewardManager → Bytes
encode_manager m = m.version ∷ (m.token_account ++ (m.manager ++ m.min_votes ∷ []))

-- An instruction by the number of its variant and its fields; a number takes one place.
abbrev pub encode_instruction : Instructions → Bytes
encode_instruction (init_reward_manager params) = 0 ∷ params.min_votes ∷ []
encode_instruction (create_sender params) = 1 ∷ (params.eth_address ++ params.operator)
encode_instruction delete_sender = 2 ∷ []
encode_instruction (add_sender params) = 3 ∷ (params.eth_address ++ params.operator)
encode_instruction (transfer params) = 4 ∷ params.amount ∷ (params.eth_recipient ++ params.id)

abbrev decode_variant : ℕ → Bytes → Result ProgramError Instructions
decode_variant tag d =
    if eqb tag 0
    then ok (init_reward_manager (record { min_votes = first d }))
    else if eqb tag 1
    then ok (create_sender (record { eth_address = take 20 d; operator = drop 20 d }))
    else if eqb tag 2
    then ok delete_sender
    else if eqb tag 3
    then ok (add_sender (record { eth_address = take 20 d; operator = drop 20 d }))
    else ok (
        transfer (record {
          amount = first d;
          eth_recipient = take 20 (drop 1 d);
          id = drop 20 (drop 1 d);
        }))

abbrev pub decode_instruction : Bytes → Result ProgramError Instructions
decode_instruction [] = err (other 2)
decode_instruction (tag ∷ d) = decode_variant tag d

abbrev meta : Pubkey → AccountMeta
meta k = record { pubkey = k; is_signer = false; is_writable = true }

abbrev system : Pubkey
system = 4 ∷ []

abbrev pub program : Pubkey
program = 7 ∷ []

abbrev pub create : List AccountMeta → Bytes → Ledger → Result ProgramError Ledger
create (to ∷ _) (lamports ∷ space ∷ owner) w =
    if eqb (w to.pubkey).lamports 0 && (w to.pubkey).owner == system
    then ok (
        update w to.pubkey
          (record { lamports = lamports; bytes = replicate space 0; owner = owner }))
    else err (other 0)
create _ _ w = err (other 0)

abbrev call : Instruction → Ledger → Result ProgramError Ledger
call ix w = if ix.program_id == system then create ix.accounts ix.bytes w else ok w

abbrev pub at : List Instruction → ℕ → Result ℕ Instruction
at ixs i = elim (get_elem? ixs i) [ none ↦ err 0 | some ix ↦ ok ix ]

-- The chain during a transaction whose earlier instructions are `ixs`.
abbrev pub chain : List Instruction → Env
chain ixs = record {
  reward_manager_borsh = record { try_from_slice = decode_manager; serialize = encode_manager };
  sender_borsh = record { try_from_slice = decode_sender; serialize = encode_sender };
  instructions_borsh = record {
    try_from_slice = decode_instruction;
    serialize = encode_instruction;
  };
  write_error = other 3;
  find_program_address = λ seeds _. elim seeds [ [] ↦ ([], 0) | seed ∷ _ ↦ (255 ∷ seed, 254) ];
  create_with_seed = λ base seed _. ok (base ++ seed);
  from_pubkey_error = other;
  bs58_encode = λ b. b;
  load_current_index = λ _. ok (length ixs);
  load_instruction_at = λ i _. at ixs i;
  rent_from_account_info = λ _ _. ok 0;
  minimum_balance = λ _ n. n + 1;
  secp256k1_program_id = 1 ∷ [];
  spl_token_id = 2 ∷ [];
  claimable_tokens_id = 3 ∷ [];
  system_program_id = system;
  sysvar_instructions_id = 5 ∷ [];
  sysvar_rent_id = 6 ∷ [];
  unpack_token_account_mint = λ d. ok d;
  claimable_address = λ p mint eth. ok (p ++ (mint ++ eth));
  initialize_account = λ p _ _ _. ok (record { program_id = p; accounts = []; bytes = [] });
  token_transfer_ix = λ p source destination _ _ amount. ok (record {
    program_id = p;
    accounts = meta source ∷ meta destination ∷ [];
    bytes = amount ∷ [];
  });
  create_account_with_seed_ix = λ _ to _ _ lamports space owner. record {
    program_id = system;
    accounts = meta to ∷ [];
    bytes = lamports ∷ space ∷ owner;
  };
  invoke = λ ix _ w. ok w;
  invoke_signed = λ ix _ _ w. call ix w;
}

absurd_err {ℓ} :
    {A : Type 0} {B : Type ℓ} {e : ProgramError} {a : A}
    → ◌≡◌ {A = Result ProgramError A} (err e) (ok a)
    → B
absurd_err h = absurd (cc)

length-fit : (n : ℕ) (d : Bytes) → length (fit n d) ≡ n
length-fit n d = omega (
  arith,
  length-take n (d ++ replicate n 0),
  length-append d (replicate n 0),
  length-replicate {A = ℕ} n 0,
)

encode_sender-size : (s : SenderAccount) → length (encode_sender s) ≡ 73
encode_sender-size s = omega (
  arith,
  length-append (fit 32 s.reward_manager) (fit 20 s.eth_address ++ fit 20 s.operator),
  length-append (fit 20 s.eth_address) (fit 20 s.operator),
  length-fit 32 s.reward_manager,
  length-fit 20 s.eth_address,
  length-fit 20 s.operator,
)

decode_sender-size : (d : Bytes) (s : SenderAccount) → decode_sender d ≡ ok s → length d ≡ 73
decode_sender-size d s h = elim (Bool-cases (eqb (length d) 73)) [
  | inl fits ↦ eqb→eq (length d) 73 fits
  | inr misfit ↦ absurd_err (rw misfit at h)
]

decode_manager-size : (d : Bytes) (m : RewardManager) → decode_manager d ≡ ok m → length d ≡ 66
decode_manager-size d m h = elim (Bool-cases (eqb (length d) 66)) [
  | inl fits ↦ eqb→eq (length d) 66 fits
  | inr misfit ↦ absurd_err (rw misfit at h)
]

KeepsOwned-refl :
    (w w' : Ledger) → ◌≡◌ {A = Result ProgramError Ledger} (ok w) (ok w') → KeepsOwned program w w'
KeepsOwned-refl w w' h =
    subst (KeepsOwned program w) (ok-injective h)
      (λ k o. record { same_owner = refl; same_bytes = refl; not_debited = omega arith })

-- What a successful creation found and left.
record Created (to : Pubkey) (lamports space : ℕ) (owner : Pubkey) (w w' : Ledger) : Type 0 where
  unused : (w to).lamports ≡ 0
  free : (w to).owner ≡ system
  after : w' ≡ λ j.
      if to == j
      then record { lamports = lamports; bytes = replicate space 0; owner = owner }
      else w j

create-eq_ok :
    (to : AccountMeta) (metas : List AccountMeta) (lamports space : ℕ) (owner : Pubkey)
    (w w' : Ledger)
    → create (to ∷ metas) (lamports ∷ space ∷ owner) w ≡ ok w'
    → Created to.pubkey lamports space owner w w'
unfolding update
create-eq_ok to metas lamports space owner w w' h =
    elim (Bool-cases (eqb (w to.pubkey).lamports 0 && (w to.pubkey).owner == system)) [
      | inl pass ↦ record {
        unused = ground arith;
        free = (==_iff _ _).0 (ground arith);
        after = sym (ok-injective (rw pass at h));
      }
      | inr fail ↦ absurd_err (rw fail at h)
    ]

create-KeepsOwned :
    (metas : List AccountMeta) (d : Bytes) (w w' : Ledger)
    → create metas d w ≡ ok w'
    → KeepsOwned program w w'
create-KeepsOwned [] d w w' h = cc
create-KeepsOwned (to ∷ metas) [] w w' h = cc
create-KeepsOwned (to ∷ metas) (l ∷ []) w w' h = cc
create-KeepsOwned (to ∷ metas) (l ∷ n ∷ o) w w' h = λ k mine.
    let c = create-eq_ok to metas l n o w w' h in
    elim (Bool-cases (to.pubkey == k)) [
      | inl same ↦
          let e = (==_iff to.pubkey k).0 same in
          let clash : system ≡ program = sym c.free ∙ ap (λ (x : Pubkey). (w x).owner) e ∙ mine in
          absurd (omega (arith, ap first clash))
      | inr differs ↦
          let kept : w' k ≡ w k = ap (λ (f : Ledger). f k) c.after ∙ rw differs in
          rw kept (record { same_owner = refl; same_bytes = refl; not_debited = omega arith })
    ]

call-KeepsOwned : (ix : Instruction) (w w' : Ledger) → call ix w ≡ ok w' → KeepsOwned program w w'
call-KeepsOwned ix w w' h = elim (Bool-cases (ix.program_id == system)) [
  | inl sys ↦ create-KeepsOwned ix.accounts ix.bytes w w' (rw sys at h)
  | inr spl ↦ KeepsOwned-refl w w' (rw spl at h)
]

-- The chain meets the assumptions.
pub chain-IsRuntime : (ixs : List Instruction) → IsRuntime (chain ixs) program
unfolding ◌==◌
chain-IsRuntime ixs = record {
  reward_manager_size = decode_manager-size;
  sender_size = decode_sender-size;
  sender_written = encode_sender-size;
  initialize_account_program =
      λ p _ _ _ ix h. sym (ap (λ (i : Instruction). i.program_id) (ok-injective h));
  token_transfer_program =
      λ p _ _ _ _ _ ix h. sym (ap (λ (i : Instruction). i.program_id) (ok-injective h));
  create_account_program = λ _ _ _ _ _ _ _. refl;
  spl_token_foreign = λ e. omega (arith, ap first e);
  system_program_foreign = λ e. omega (arith, ap first e);
  invoke_keeps = λ ix infos w w' _ h. KeepsOwned-refl w w' h;
  invoke_signed_keeps = λ ix infos seeds w w' _ h. call-KeepsOwned ix w w' h;
  create_account_creates = λ from to base seed lamports space owner infos seeds w w' h.
      let c = create-eq_ok (meta to) [] lamports space owner w w' h in
      let e : w' to ≡ record { lamports = lamports; bytes = replicate space 0; owner = owner } =
        ap (λ (f : Ledger). f to) c.after ∙ rw (==_refl to) in
      (c.unused, rw e, rw e (length-replicate space 0), rw e);
}
