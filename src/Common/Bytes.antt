-- ===== src/Common/Bytes.antt =====
-- Byte sequences as lists of numbers, and the big-endian forms of words.
use Prim.Native.Nat.{ℕ, ◌+◌, ◌*◌, ◌/◌, ◌%◌, ◌^◌, ◌<◌}
use mathlib.Core.Path.{◌≡◌}
use mathlib.Core.List.{List, [], ◌∷◌}
use native.Mathlib.Omega.{arith}
use discord_voice_service.Common.Lists.{All}

abbrev pub IsByte : ℕ → Type 0
IsByte b = b < 256

abbrev pub Bytes : Type 0
Bytes = List ℕ

abbrev pub AreBytes : Bytes → Type 0
AreBytes = All IsByte

-- `u16::to_be_bytes` and `u32::to_be_bytes`
abbrev pub be_bytes16 : ℕ → Bytes
be_bytes16 n = n / 256 % 256 ∷ n % 256 ∷ []

abbrev pub be_bytes32 : ℕ → Bytes
be_bytes32 n = n / 16_777_216 % 256 ∷ n / 65_536 % 256 ∷ n / 256 % 256 ∷ n % 256 ∷ []

-- `u16::from_be_bytes` and `u32::from_be_bytes`
abbrev pub from_be16 : ℕ → ℕ → ℕ
from_be16 a b = a * 256 + b

abbrev pub from_be32 : ℕ → ℕ → ℕ → ℕ → ℕ
from_be32 a b c d = a * 16_777_216 + b * 65_536 + c * 256 + d

pub from_be16-be_bytes16 : (n : ℕ) → n < 2 ^ 16 → from_be16 (n / 256 % 256) (n % 256) ≡ n
from_be16-be_bytes16 n h = omega arith

pub from_be32-be_bytes32 :
    (n : ℕ)
    → n < 2 ^ 32
    → from_be32 (n / 16_777_216 % 256) (n / 65_536 % 256) (n / 256 % 256) (n % 256) ≡ n
from_be32-be_bytes32 n h = omega arith

pub be_bytes32-injective : (a b : ℕ) → a < 2 ^ 32 → b < 2 ^ 32 → be_bytes32 a ≡ be_bytes32 b → a ≡ b
be_bytes32-injective a b ha hb e = ground arith

pub be_bytes32-from_be32 :
    (a b c d : ℕ)
    → IsByte a
    → IsByte b
    → IsByte c
    → IsByte d
    → be_bytes32 (from_be32 a b c d) ≡ a ∷ b ∷ c ∷ d ∷ []
be_bytes32-from_be32 a b c d ha hb hc hd = ground arith

pub from_be32-lt :
    (a b c d : ℕ) → IsByte a → IsByte b → IsByte c → IsByte d → from_be32 a b c d < 2 ^ 32
from_be32-lt a b c d ha hb hc hd = omega arith
