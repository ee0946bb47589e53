-- ===== src/Db/Volume/Scaled.antt =====
-- The scaled volume of indexer/src/db.js is the volume, written with a decimal point.
use native.Mathlib.Nat.{div-add-mod', mod-lt}
use pero_j.Base.{
  ℕ, zero, suc, ◌+◌, ◌-◌, ◌*◌, ◌/◌, ◌%◌, ◌^◌, ◌≤◌, ◌<◌, false, [], ◌∷◌, ◌++◌, ◌≡◌, refl, ap, ◌∙◌,
  arith, ◌==◌, length, All, Option, none, some,
}
use pero_j.Base.Int.{pos, ◌-ℤ◌, ◌/ℤ◌, pos-*ℤ}
use pero_j.Base.Codes.{Text}
use pero_j.Base.Decimal.{
  IsDigit, big_int, big_int-digits, print_ℕ-digits, print_ℕ, print_before, print_ℤ, decimal_value,
  value_after, decimal_value-print_ℕ, length-print_ℕ,
}
use pero_j.Db.Volume.{before_point, rem_ℤ, zeros, pad_start, scale, get_24h_volume}

before_point-digits : (s t : Text) → All IsDigit s → before_point (s ++ 46 ∷ t) ≡ s
unfolding before_point
before_point-digits [] t h = refl
before_point-digits (c ∷ s) t h =
    let e : (c == 46) ≡ false = ground arith in
    rw e (ap (λ rest. c ∷ rest) (before_point-digits s t h.1))

before_point-All : (s : Text) → All IsDigit s → before_point s ≡ s
unfolding before_point
before_point-All [] h = refl
before_point-All (c ∷ s) h =
    let e : (c == 46) ≡ false = ground arith in
    rw e (ap (λ rest. c ∷ rest) (before_point-All s h.1))

pow_pos : (d : ℕ) → 0 < 10 ^ d
pow_pos zero = omega arith
pow_pos (suc d) = let q : 10 ^ suc d ≡ 10 * 10 ^ d = omega arith in omega (arith, pow_pos d)

rem_lem : (n d : ℕ) → rem_ℤ (pos n) (pos d) ≡ pos (n % d)
unfolding rem_ℤ ◌/ℤ◌ ◌-ℤ◌
rem_lem n d =
    let m = n / d * d in
    let q : n / d * d + n % d ≡ n = div-add-mod' n d in rw (pos-*ℤ (n / d) d) (ground arith)

decimal_value-zeros : (n : ℕ) (s : Text) → decimal_value (zeros n s) ≡ decimal_value s
unfolding decimal_value value_after zeros
decimal_value-zeros zero s = refl
decimal_value-zeros (suc n) s = decimal_value-zeros n s

length-zeros : (n : ℕ) (s : Text) → length (zeros n s) ≡ n + length s
unfolding zeros
length-zeros zero s = omega arith
length-zeros (suc n) s = omega (arith, length-zeros n s)

-- The sum as the database writes it, with or without decimals of its own.
abbrev pub sum_text : ℕ → Option Text → Text
sum_text n none = print_ℕ n
sum_text n (some decimals) = print_ℕ n ++ 46 ∷ decimals

sum_lem : (n : ℕ) (rest : Option Text) → big_int (before_point (sum_text n rest)) ≡ pos n
sum_lem n none =
    ap big_int (before_point-All (print_ℕ n) (print_ℕ-digits n))
    ∙ big_int-digits (print_ℕ n) (print_ℕ-digits n)
    ∙ ap pos (decimal_value-print_ℕ n)
sum_lem n (some t) =
    ap big_int (before_point-digits (print_ℕ n) t (print_ℕ-digits n))
    ∙ big_int-digits (print_ℕ n) (print_ℕ-digits n)
    ∙ ap pos (decimal_value-print_ℕ n)

zeros-digits : (n : ℕ) (s : Text) → All IsDigit s → All IsDigit (zeros n s)
unfolding zeros
zeros-digits zero s h = h
zeros-digits (suc n) s h = ((omega arith, omega arith), zeros-digits n s h)

padded_zero : zeros (0 - length (print_ℕ 0)) (print_ℕ 0) ≡ 48 ∷ []
unfolding zeros print_ℕ print_before
padded_zero = refl

-- Digits, a point and digits, which together are the number; so many digits stand after the point,
-- and one zero if the token has no decimals.
unfoldable pub Denotes : ℕ → ℕ → Text → Type 0
Denotes n decimals s =
    (whole : Text) × (fraction : Text) × (s ≡ whole ++ 46 ∷ fraction)
    × (decimal_value whole * 10 ^ decimals + decimal_value fraction ≡ n)
    × All IsDigit whole
    × All IsDigit fraction
    × (1 ≤ decimals → length fraction ≡ decimals)
    × (decimals ≡ 0 → fraction ≡ 48 ∷ [])

scale-Denotes : (n decimals : ℕ) → Denotes n decimals (scale (pos n) decimals)
unfolding Denotes scale ◌/ℤ◌ print_ℤ pad_start
scale-Denotes n decimals =
    let d = 10 ^ decimals in
    let r = n % d in
    let lt : r < d = mod-lt n (pow_pos decimals) in
    (
      print_ℕ (n / d),
      zeros (decimals - length (print_ℕ r)) (print_ℕ r),
      ap (λ x. print_ℕ (n / d) ++ 46 ∷ pad_start decimals (print_ℤ x)) (rem_lem n d),
      rw (decimal_value-zeros (decimals - length (print_ℕ r)) (print_ℕ r))
          (rw (decimal_value-print_ℕ (n / d)) (rw (decimal_value-print_ℕ r) (div-add-mod' n d))),
      print_ℕ-digits (n / d),
      zeros-digits (decimals - length (print_ℕ r)) (print_ℕ r) (print_ℕ-digits r),
      (λ one. omega (
        arith,
        length-zeros (decimals - length (print_ℕ r)) (print_ℕ r),
        length-print_ℕ decimals r lt one,
      )),
      (λ none_left.
          let one : d ≡ 1 = ap (λ k. 10 ^ k) none_left in
          let z : r ≡ 0 = omega (arith, one, lt) in
          ap (λ x. zeros (decimals - length (print_ℕ x)) (print_ℕ x)) z
          ∙ ap (λ k. zeros (k - length (print_ℕ 0)) (print_ℕ 0)) none_left
          ∙ padded_zero),
    )

-- For a sum that is not negative, the text of the volume denotes the whole part of the sum, divided
-- by the power of ten of the token's decimals, exactly and however large the sum is: it is digits, a
-- point, and as many digits as the token has decimals, or a single zero if it has none.
pub get_24h_volume-Denotes :
    (n decimals : ℕ) (rest : Option Text)
    → Denotes n decimals (get_24h_volume (sum_text n rest) decimals).volume_scaled
unfolding get_24h_volume
get_24h_volume-Denotes n decimals rest = rw (sum_lem n rest) (scale-Denotes n decimals)
