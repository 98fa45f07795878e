-- ===== src/Prelude/Words.antt =====
-- Machine words: the modulus of a uint64, and wrap-around arithmetic on it.
use Prim.Native.Nat.{ℕ, ◌+◌, ◌-◌, ◌%◌}

-- Shut, so that no tactic expands a call under it; a proof that needs the number unfolds it.
unfoldable pub u64_mod : ℕ
u64_mod = 18446744073709551616

abbrev pub add64 : ℕ → ℕ → ℕ
add64 a b = (a + b) % u64_mod

abbrev pub sub64 : ℕ → ℕ → ℕ
sub64 a b = (a + u64_mod - b) % u64_mod
