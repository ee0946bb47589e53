-- ===== src/Base/Codes.antt =====
-- Texts as lists of character codes, for the code that looks at single characters. (Characters
-- outside the basic plane, which JavaScript counts as two units, are counted as one.)
use Prim.Native.String.{String}
use Prim.Native.Char.{code}
use native.Mathlib.Decide.{ℕ_discrete}
use mathlib.Core.Path.{◌≡◌, refl}
use mathlib.Core.Logic.{◌≢◌}
use mathlib.Core.List.{List, [], ◌∷◌}
use mathlib.Core.Bool.{Bool, true, false, ◌&&◌}
use pero_j.Base.Tests.{◌==◌}
use Prim.Native.Nat.{ℕ}
use native.Mathlib.Omega.{arith}

abbrev pub Text : Type 0
Text = List ℕ

unfoldable pub codes : String → Text
codes String.[] = []
codes (String.◌∷◌ letter later) = code letter ∷ codes later

pub other_head : (c d : ℕ) (s t : Text) → c ≢ d → ◌≢◌ {A = Text} (c ∷ s) (d ∷ t)
other_head c d s t n p = n (cc)

pub other_tail : (c d : ℕ) (s t : Text) → s ≢ t → ◌≢◌ {A = Text} (c ∷ s) (d ∷ t)
other_tail c d s t n p = n (cc)

pub same_text : (c d : ℕ) (s t : Text) → c ≡ d → s ≡ t → ◌≡◌ {A = Text} (c ∷ s) (d ∷ t)
same_text c d s t p q = cc

pub is_longer : (c : ℕ) (s : Text) → ◌≢◌ {A = Text} [] (c ∷ s)
is_longer c s p = cc

pub not_shorter : (c : ℕ) (s : Text) → ◌≢◌ {A = Text} (c ∷ s) []
not_shorter c s p = cc

unfoldable pub Text-discrete : Discrete Text
unfolding ℕ_discrete
Text-discrete [] [] = yes refl
Text-discrete [] (d ∷ t) = no (is_longer d t)
Text-discrete (c ∷ s) [] = no (not_shorter c s)
Text-discrete (c ∷ s) (d ∷ t) = elim (ℕ_discrete c d) [
  | no n ↦ no (other_head c d s t n)
  | yes p ↦ elim (Text-discrete s t) [
    | yes q ↦ yes (same_text c d s t p q)
    | no n ↦ no (other_tail c d s t n)
  ]
]

-- `a === b`
unfoldable pub eq_text : Text → Text → Bool
eq_text [] [] = true
eq_text [] (d ∷ t) = false
eq_text (c ∷ s) [] = false
eq_text (c ∷ s) (d ∷ t) = (c == d) && eq_text s t

pub eq_text_self : (s : Text) → eq_text s s ≡ true
unfolding eq_text
eq_text_self [] = refl
eq_text_self (c ∷ s) = ground (arith, eq_text_self s)

pub eq_text_eq : (s t : Text) → eq_text s t ≡ true → s ≡ t
unfolding eq_text
eq_text_eq [] [] h = refl
eq_text_eq [] (d ∷ t) h = absurd (cc)
eq_text_eq (c ∷ s) [] h = absurd (cc)
eq_text_eq (c ∷ s) (d ∷ t) h = ground (arith, eq_text_eq s t)
