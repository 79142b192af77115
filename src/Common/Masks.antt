-- ===== src/Common/Masks.antt =====
-- Facts about masks and shifts of one byte, found by trying every byte.
use Prim.Native.Nat.{ℕ, zero, suc, ◌<◌}
use mathlib.Core.Path.{◌≡◌}
use mathlib.Core.Bool.{Bool, true, ◌&&◌}
use native.Mathlib.Omega.{arith}

-- The test succeeds on each of the first numbers, the last of them first.
unfoldable pub passes_on_first : (ℕ → Bool) → ℕ → Bool
passes_on_first test zero = true
passes_on_first test (suc last) = test last && passes_on_first test last

pub passes_on_first_lem :
    (test : ℕ → Bool) (count i : ℕ) → i < count → passes_on_first test count ≡ true → test i ≡ true
unfolding passes_on_first
passes_on_first_lem test zero i below passed = absurd (omega arith)
passes_on_first_lem test (suc last) i below passed = ground (arith, passes_on_first_lem test last i)
