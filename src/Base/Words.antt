-- ===== src/Base/Words.antt =====
-- Machine words as native numbers, wrapped by `%`. An `int` that the C code mixes with `uint32_t`
-- operands is kept as its 32-bit pattern, since C converts it to `uint32_t` there.
use Prim.Native.Nat.{ℕ, ◌+◌, ◌-◌, ◌%◌, ◌^◌}

abbrev pub add32 : ℕ → ℕ → ℕ
add32 a b = (a + b) % 2 ^ 32

abbrev pub sub32 : ℕ → ℕ → ℕ
sub32 a b = (a + 2 ^ 32 - b) % 2 ^ 32
