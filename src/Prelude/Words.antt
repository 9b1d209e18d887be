-- ===== src/Prelude/Words.antt =====
-- Machine words: `size_t` and `uint64_t` of 64 bits, `DWORD` and `ULONG` of 32 bits.
use Prim.Native.Nat.{ℕ, ◌+◌, ◌-◌, ◌%◌, ◌^◌}

abbrev pub add_u64 : ℕ → ℕ → ℕ
add_u64 a b = (a + b) % 2 ^ 64

abbrev pub sub_u64 : ℕ → ℕ → ℕ
sub_u64 a b = (a + 2 ^ 64 - b) % 2 ^ 64

abbrev pub to_u32 : ℕ → ℕ
to_u32 a = a % 2 ^ 32

-- The largest value of a `long`, plus one.
abbrev pub long_limit : ℕ
long_limit = 2 ^ 31
