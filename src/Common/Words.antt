-- ===== src/Common/Words.antt =====
-- Machine words as native numbers. Wrap-around is written out.
use Prim.Native.Nat.{ℕ, ◌+◌, ◌-◌, ◌%◌}

abbrev pub u8 : ℕ → ℕ
u8 n = n % 256

abbrev pub u16 : ℕ → ℕ
u16 n = n % 65536

abbrev pub u32 : ℕ → ℕ
u32 n = n % 4294967296

-- uint32_t a - b.
abbrev pub sub32 : ℕ → ℕ → ℕ
sub32 a b = (a + 4294967296 - b) % 4294967296

-- uint64_t a - b.
abbrev pub sub64 : ℕ → ℕ → ℕ
sub64 a b = (a + 18446744073709551616 - b) % 18446744073709551616
