-- ===== src/Base/Text.antt =====
-- Texts: decidable equality, and JavaScript's `a || b`, where the empty text is falsy. A field
-- that is absent and only tested or compared is read as the empty text.
use Prim.Native.String.{String}
use mathlib.Core.Path.{◌≡◌}
use mathlib.Core.Logic.{◌≢◌, inl, inr}
use mathlib.Core.Bool.{Bool, false}
use text.Mathlib.Text.{◌==◌ as str_eq}
use text.Mathlib.TextEquality.{eq_iff}
use pero_j.Base.Tests.{Bool-cases, if◌then◌else◌}
use native.Mathlib.Omega.{arith}

-- Two texts that compare as different are.
pub differ : (s t : String) → str_eq s t ≡ false → s ≢ t
differ s t other p = ground (arith, eq_iff s t)

unfoldable pub String-discrete : Discrete String
unfolding Bool-cases
String-discrete s t = elim (Bool-cases (str_eq s t)) [
  | inl same ↦ yes ((eq_iff s t).0 same)
  | inr other ↦ no (differ s t other)
]

abbrev pub is_empty : String → Bool
is_empty s = str_eq s ""

-- `a || b`
abbrev pub or_else : String → String → String
or_else a b = if is_empty a then b else a
