-- ===== src/Error/Codes.antt =====
-- The codes by which a client tells the program's errors apart.
use audius_reward_manager.Prelude.{ℕ, ◌≡◌, ap, arith}
use audius_reward_manager.Error.Defs.{AudiusProgramError, ProgramError, custom, as_u32, from}

code_of : ProgramError → ℕ
code_of (custom n) = n
code_of _ = 0

as_u32-injective : (a b : AudiusProgramError) → as_u32 a ≡ as_u32 b → a ≡ b
unfolding as_u32
as_u32-injective a b h = ground arith

-- Two of the program's errors are one `ProgramError` for the client only if they are the same.
pub from-injective : (a b : AudiusProgramError) → from a ≡ from b → a ≡ b
unfolding from code_of
from-injective a b h = as_u32-injective a b (ap code_of h)
