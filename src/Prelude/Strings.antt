-- ===== src/Prelude/Strings.antt =====
-- Equality of strings, apart from that of numbers.
use Prim.Native.String.{String}
use text.Mathlib.Text.{◌==◌}
use text.Mathlib.TextEquality.{eq_iff}
use mathlib.Core.Logic.{◌↔◌}
use mathlib.Core.Path.{◌≡◌}
use mathlib.Core.Bool.{Bool, true}

unfoldable pub eq_string : String → String → Bool
eq_string a b = a == b

pub eq_string_iff : (a b : String) → (eq_string a b ≡ true) ↔ (a ≡ b)
unfolding eq_string
eq_string_iff a b = eq_iff a b
