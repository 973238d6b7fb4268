-- ===== src/Cli/Buffer.antt =====
-- Writes into a byte buffer, as cli/src/utils.rs makes them; each panics out of range.
pub mod Laws
use audius_reward_manager.Prelude.{
  ℕ, ◌+◌, ◌-◌, ◌^◌, ◌∷◌, ◌++◌, Bool, true, false, Bytes, length, take, drop, ltb, eqb, not, ◌||◌,
  if◌then◌else◌,
}
use audius_reward_manager.Outcome.{Result, ok, panic, ⊤}
use audius_reward_manager.Cli.Client.{Error}

-- `usize::saturating_add`
unfoldable pub saturating_add : ℕ → ℕ → ℕ
saturating_add a b = if ltb (a + b) (2 ^ 64) then a + b else 2 ^ 64 - 1

-- `assert!`
unfoldable pub assert : Bool → Result Error ⊤
assert true = ok tt
assert false = panic

-- `v[start..end].copy_from_slice(source)`
unfoldable pub copy_from_slice : Bytes → ℕ → ℕ → Bytes → Result Error Bytes
copy_from_slice v start end source =
    if ltb end start || (ltb (length v) end || not (eqb (end - start) (length source)))
    then panic
    else ok (take start v ++ (source ++ drop end v))

-- `v[i] = b`
unfoldable pub set_byte : Bytes → ℕ → ℕ → Result Error Bytes
set_byte v i b = if ltb i (length v) then ok (take i v ++ b ∷ drop (i + 1) v) else panic

-- `serialize_into(Cursor::new(&mut v[start..end]), …).unwrap()`, for the bytes that are written
unfoldable pub write_into : Bytes → ℕ → ℕ → Bytes → Result Error Bytes
write_into v start end source =
    if ltb end start || (ltb (length v) end || ltb (end - start) (length source))
    then panic
    else ok (take start v ++ (source ++ drop (start + length source) v))
