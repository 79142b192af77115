-- ===== src/Common/Words.antt =====
-- Machine words as native numbers. A `usize` has 64 bits.
use Prim.Native.Nat.{ℕ, ◌+◌, ◌*◌, ◌%◌, ◌^◌, ◌<◌, min}
use mathlib.Core.Option.{Option, none, some}
use discord_voice_service.Common.Tests.{ltb, if◌then◌else◌}

abbrev pub u8_max : ℕ
u8_max = 255

abbrev pub u16_max : ℕ
u16_max = 65_535

abbrev pub u32_max : ℕ
u32_max = 4_294_967_295

abbrev pub u64_max : ℕ
u64_max = 18_446_744_073_709_551_615

abbrev pub IsU16 : ℕ → Type 0
IsU16 n = n < 2 ^ 16

abbrev pub IsU32 : ℕ → Type 0
IsU32 n = n < 2 ^ 32

abbrev pub IsU64 : ℕ → Type 0
IsU64 n = n < 2 ^ 64

-- `saturating_add`, `saturating_mul` of u64 and usize. `saturating_sub` is `◌-◌`.
abbrev pub saturating_add : ℕ → ℕ → ℕ
saturating_add a b = min (a + b) u64_max

abbrev pub saturating_mul : ℕ → ℕ → ℕ
saturating_mul a b = min (a * b) u64_max

abbrev pub wrapping_add16 : ℕ → ℕ → ℕ
wrapping_add16 a b = (a + b) % 2 ^ 16

abbrev pub wrapping_add32 : ℕ → ℕ → ℕ
wrapping_add32 a b = (a + b) % 2 ^ 32

-- `try_into()` of an unsigned number to a type with `w` bits, and `checked_mul`, `checked_add`.
abbrev pub try_into : ℕ → ℕ → Option ℕ
try_into w n = if ltb n (2 ^ w) then some n else none
