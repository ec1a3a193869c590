-- ===== src/Prelude/Words.antt =====
-- Unsigned 64-bit arithmetic (`uintptr_t`, `size_t`) with its wrap-around.
use Prim.Native.Nat.{ℕ, ◌+◌, ◌-◌, ◌%◌, ◌^◌}

abbrev pub u64 : ℕ → ℕ
u64 n = n % 2 ^ 64

-- `-` on ℕ stops at 0, so the modulus is added first.
abbrev pub sub64 : ℕ → ℕ → ℕ
sub64 a b = (a + 2 ^ 64 - b % 2 ^ 64) % 2 ^ 64
