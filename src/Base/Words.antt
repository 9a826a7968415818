-- ===== src/Base/Words.antt =====
-- Machine integers: a value is a native number below its modulus, and each operation that the
-- source compiles without overflow checks (release profile) wraps.
use Prim.Native.Nat.{ℕ, ◌+◌, ◌-◌, ◌%◌, ◌^◌, ◌<◌}
use mathlib.Core.Path.{◌≡◌}
use mathlib.Core.Option.{Option, none, some}
use native.Mathlib.Omega.{arith}
use folio.Base.Tests.{ltb, if◌then◌else◌}

abbrev pub u8_mod : ℕ
u8_mod = 2 ^ 8

abbrev pub u32_mod : ℕ
u32_mod = 2 ^ 32

abbrev pub u64_mod : ℕ
u64_mod = 2 ^ 64

-- `a + b` on u64 (and on the bit pattern of an i64).
abbrev pub add64 : ℕ → ℕ → ℕ
add64 a b = (a + b) % u64_mod

-- `a - b` on u64.
abbrev pub sub64 : ℕ → ℕ → ℕ
sub64 a b = (a + u64_mod - b) % u64_mod

-- `checked_add` on u64 and usize.
abbrev pub checked_add64 : ℕ → ℕ → Option ℕ
checked_add64 a b = if ltb (a + b) u64_mod then some (a + b) else none

pub add64-eq : (a b : ℕ) → a + b < u64_mod → add64 a b ≡ a + b
add64-eq a b h = omega arith
