-- ===== src/ScVal/Words/Digits.antt =====
-- Binary digits of the words that indexer/src/scval.js composes: what `|` does to the lowest digit
-- and to the others. The digitwise operation runs on fuel, which any number from its argument on
-- supplies.
use Prim.Native.Nat.{bit_and, bit_or, digits, bit_or-bitwise, bit_and-bitwise, max, min}
use pero_j.Base.{ℕ, zero, suc, ◌+◌, ◌-◌, ◌*◌, ◌/◌, ◌%◌, ◌≤◌, ◌≡◌, refl, sym, ap, ◌∙◌, arith}

module _ (rest : ℕ → ℕ) (op : ℕ → ℕ → ℕ) where
  one_more : (fuel x y : ℕ) → x ≤ fuel → digits rest op (suc fuel) x y ≡ digits rest op fuel x y
  one_more zero zero y enough = refl
  one_more zero (suc x) y enough = absurd (omega arith)
  one_more (suc fuel) zero y enough = refl
  one_more (suc fuel) (suc x) y enough =
      ap (λ high. high * 2 + op (suc x % 2) (y % 2))
        (one_more fuel (suc x / 2) (y / 2) (omega arith))

  spare : (extra x y : ℕ) → digits rest op (extra + x) x y ≡ digits rest op x x y
  spare zero x y = ap (λ fuel. digits rest op fuel x y) (omega arith)
  spare (suc extra) x y =
      let one : suc extra + x ≡ suc (extra + x) = omega arith in
      ap (λ fuel. digits rest op fuel x y) one
      ∙ one_more (extra + x) x y (omega arith)
      ∙ spare extra x y

  half : (x y : ℕ) → digits rest op x (suc x / 2) y ≡ digits rest op (suc x / 2) (suc x / 2) y
  half x y =
      let h = suc x / 2 in ap (λ fuel. digits rest op fuel h y) (omega arith) ∙ spare (x - h) h y

bit_or-nothing : (y : ℕ) → bit_or 0 y ≡ y
bit_or-nothing y = bit_or-bitwise 0 y

bit_and-nothing : (y : ℕ) → bit_and 0 y ≡ 0
bit_and-nothing y = bit_and-bitwise 0 y

pub bit_or_lowest : (x y : ℕ) → bit_or x y ≡ bit_or (x / 2) (y / 2) * 2 + max (x % 2) (y % 2)
bit_or_lowest zero y = omega (arith, bit_or-nothing (y / 2), bit_or-nothing y)
bit_or_lowest (suc x) y =
    let high = half (λ n. n) max x (y / 2) ∙ sym (bit_or-bitwise (suc x / 2) (y / 2)) in
    bit_or-bitwise (suc x) y ∙ ap (λ n. n * 2 + max (suc x % 2) (y % 2)) high

pub bit_and_lowest : (x y : ℕ) → bit_and x y ≡ bit_and (x / 2) (y / 2) * 2 + min (x % 2) (y % 2)
bit_and_lowest zero y = omega (arith, bit_and-nothing (y / 2), bit_and-nothing y)
bit_and_lowest (suc x) y =
    let high = half (λ n. 0) min x (y / 2) ∙ sym (bit_and-bitwise (suc x / 2) (y / 2)) in
    bit_and-bitwise (suc x) y ∙ ap (λ n. n * 2 + min (suc x % 2) (y % 2)) high

-- By halving.
pub bit_or-none : (fuel x : ℕ) → x ≤ fuel → bit_or x 0 ≡ x
bit_or-none fuel zero enough = bit_or-nothing 0
bit_or-none zero (suc x) enough = absurd (omega arith)
bit_or-none (suc fuel) (suc x) enough =
    let halves = bit_or-none fuel (suc x / 2) (omega arith) in
    bit_or_lowest (suc x) 0 ∙ omega (arith, halves)

pub bit_and-none : (fuel x : ℕ) → x ≤ fuel → bit_and x 0 ≡ 0
bit_and-none fuel zero enough = bit_and-nothing 0
bit_and-none zero (suc x) enough = absurd (omega arith)
bit_and-none (suc fuel) (suc x) enough =
    let halves = bit_and-none fuel (suc x / 2) (omega arith) in
    bit_and_lowest (suc x) 0 ∙ omega (arith, halves)
