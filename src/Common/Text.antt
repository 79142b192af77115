-- ===== src/Common/Text.antt =====
-- Texts by their characters: `contains` and `format!`, for messages that are told apart by their words.
use Prim.Native.Nat.{ℕ}
use Prim.Native.Char.{code}
use Prim.Native.String.{String}
use mathlib.Core.Bool.{Bool, true, false, ◌||◌}
use mathlib.Core.List.{List, [], ◌∷◌}
use discord_voice_service.Common.Tests.{◌==◌, if◌then◌else◌}

abbrev pub codes : String → List ℕ
codes String.[] = []
codes (String.◌∷◌ c s) = code c ∷ codes s

abbrev pub text_append : String → String → String
text_append String.[] t = t
text_append (String.◌∷◌ c s) t = String.◌∷◌ c (text_append s t)

abbrev begins : List ℕ → List ℕ → Bool
begins [] text = true
begins (p ∷ ps) [] = false
begins (p ∷ ps) (x ∷ xs) = if p == x then begins ps xs else false

abbrev has_infix : List ℕ → List ℕ → Bool
has_infix needle [] = begins needle []
has_infix needle (x ∷ xs) = begins needle (x ∷ xs) || has_infix needle xs

abbrev pub contains : String → String → Bool
contains needle text = has_infix (codes needle) (codes text)
