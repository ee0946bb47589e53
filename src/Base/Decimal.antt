-- ===== src/Base/Decimal.antt =====
-- Decimal notation, as JavaScript's `String(n)` and `BigInt(text)` write and read it.
use Prim.Native.Nat.{ℕ, zero, suc, ◌+◌, ◌-◌, ◌*◌, ◌/◌, ◌%◌, ◌^◌, ◌≤◌, ◌<◌}
use mathlib.Core.Path.{◌≡◌, refl, ap, ◌∙◌}
use mathlib.Core.Logic.{inl, inr}
use mathlib.Core.Bool.{true, false}
use mathlib.Core.List.{[], ◌∷◌}
use native.Mathlib.Omega.{arith}
use pero_j.Base.Tests.{ltb, ◌==◌, if◌then◌else◌, Bool-cases}
use pero_j.Base.Lists.{length, All}
use pero_j.Base.Int.{ℤ, pos, negsuc}
use pero_j.Base.Codes.{Text}

-- The digits of the number, before the given text. The number is fuel enough.
unfoldable pub print_before : ℕ → ℕ → Text → Text
print_before zero n s = s
print_before (suc fuel) n s =
    let rest = print_before fuel (n / 10) ((48 + n % 10) ∷ s) in
    if ltb n 10 then (48 + n) ∷ s else rest

unfoldable pub print_ℕ : ℕ → Text
print_ℕ n = print_before (suc n) n []

unfoldable pub print_ℤ : ℤ → Text
print_ℤ (pos n) = print_ℕ n
print_ℤ (negsuc n) = 45 ∷ print_ℕ (suc n)

-- The value of digits after a number.
unfoldable pub value_after : ℕ → Text → ℕ
value_after n [] = n
value_after n (c ∷ s) = value_after (n * 10 + (c - 48)) s

unfoldable pub decimal_value : Text → ℕ
decimal_value s = value_after 0 s

unfoldable pub negate : ℕ → ℤ
negate zero = pos zero
negate (suc n) = negsuc n

-- `BigInt(text)` of a text of digits, perhaps after a minus sign.
unfoldable pub big_int : Text → ℤ
big_int [] = pos 0
big_int (c ∷ s) = if c == 45 then negate (decimal_value s) else pos (decimal_value (c ∷ s))

decimal_value-print_before :
    (fuel n : ℕ) (s : Text) → n < fuel → value_after 0 (print_before fuel n s) ≡ value_after n s
unfolding value_after print_before
decimal_value-print_before zero n s h = absurd (omega arith)
decimal_value-print_before (suc fuel) n s h = elim (Bool-cases (ltb n 10)) [
  | inl small ↦
      let q : 0 * 10 + (48 + n - 48) ≡ n = omega arith in rw small (ap (λ m. value_after m s) q)
  | inr large ↦
      let q : n / 10 * 10 + (48 + n % 10 - 48) ≡ n = omega arith in
      rw large
        (decimal_value-print_before fuel (n / 10) _ (ground arith) ∙ ap (λ m. value_after m s) q)
]

pub decimal_value-print_ℕ : (n : ℕ) → decimal_value (print_ℕ n) ≡ n
unfolding decimal_value print_ℕ value_after
decimal_value-print_ℕ n = decimal_value-print_before (suc n) n [] (omega arith)

length-print_before :
    (fuel k n : ℕ) (s : Text) → n < 10 ^ k → 1 ≤ k → length (print_before fuel n s) ≤ k + length s
unfolding print_before
length-print_before zero k n s h l = omega arith
length-print_before (suc fuel) zero n s h l = absurd (omega arith)
length-print_before (suc fuel) (suc zero) n s h l =
    let e : ltb n 10 ≡ true = ground arith in rw e (omega arith)
length-print_before (suc fuel) (suc (suc k)) n s h l = elim (Bool-cases (ltb n 10)) [
  | inl small ↦ rw small (omega arith)
  | inr large ↦ rw large (
      let q : 10 ^ suc (suc k) ≡ 10 * 10 ^ suc k = omega arith in
      omega (
        arith,
        length-print_before fuel (suc k) (n / 10) ((48 + n % 10) ∷ s) (omega arith) (omega arith),
      ))
]

pub length-print_ℕ : (k n : ℕ) → n < 10 ^ k → 1 ≤ k → length (print_ℕ n) ≤ k
unfolding print_ℕ
length-print_ℕ k n h l = omega (arith, length-print_before (suc n) k n [] h l)

-- Digits, so neither the point nor the sign.
abbrev pub IsDigit : ℕ → Type 0
IsDigit c = (48 ≤ c) × (c ≤ 57)

print_before-digits : (fuel n : ℕ) (s : Text) → All IsDigit s → All IsDigit (print_before fuel n s)
unfolding print_before
print_before-digits zero n s h = h
print_before-digits (suc fuel) n s h = elim (Bool-cases (ltb n 10)) [
  | inl small ↦ rw small ((omega arith, ground arith), h)
  | inr large ↦ rw large (print_before-digits fuel (n / 10) _ ((omega arith, omega arith), h))
]

pub print_ℕ-digits : (n : ℕ) → All IsDigit (print_ℕ n)
unfolding print_ℕ
print_ℕ-digits n = print_before-digits (suc n) n [] tt

pub print_before_some :
    (fuel n : ℕ) (s : Text) → (c : ℕ) × (t : Text) × (print_before (suc fuel) n s ≡ c ∷ t)
unfolding print_before
print_before_some zero n s = elim (Bool-cases (ltb n 10)) [
  | inl small ↦ (48 + n, s, rw small refl)
  | inr large ↦ (48 + n % 10, s, rw large refl)
]
print_before_some (suc fuel) n s = elim (Bool-cases (ltb n 10)) [
  | inl small ↦ (48 + n, s, rw small refl)
  | inr large ↦
      let r = print_before_some fuel (n / 10) ((48 + n % 10) ∷ s) in (r.0, r.1, rw large r.2)
]

pub big_int-digits : (s : Text) → All IsDigit s → big_int s ≡ pos (decimal_value s)
unfolding big_int decimal_value value_after
big_int-digits [] h = refl
big_int-digits (c ∷ s) h = let e : (c == 45) ≡ false = ground arith in rw e refl

-- Reading back what was written.
pub big_int-print_ℤ : (z : ℤ) → big_int (print_ℤ z) ≡ z
unfolding print_ℤ big_int negate
big_int-print_ℤ (pos n) =
    big_int-digits (print_ℕ n) (print_ℕ-digits n) ∙ ap pos (decimal_value-print_ℕ n)
big_int-print_ℤ (negsuc n) = ap negate (decimal_value-print_ℕ (suc n))
