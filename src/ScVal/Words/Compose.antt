-- ===== src/ScVal/Words/Compose.antt =====
-- Or-ing a shifted high part with a low part adds them: indexer/src/scval.js.
use Prim.Native.Nat.{bit_and, bit_or}
use pero_j.ScVal.Words.Digits.{bit_or_lowest, bit_and_lowest, bit_or-none, bit_and-none}
use native.Mathlib.Nat.{pow-suc, mul_assoc}
use pero_j.Base.{ℕ, zero, suc, ◌+◌, ◌-◌, ◌*◌, ◌/◌, ◌%◌, ◌^◌, ◌<◌, ◌≡◌, sym, ap, ◌∙◌, arith}
use pero_j.Base.Int.{ℤ, pos, negsuc, ◌+ℤ◌, ◌*ℤ◌, pos-*ℤ, pos-+ℤ}
use pero_j.ScVal.Words.{shift_left, or_ℤ}

pow_pos : (k : ℕ) → 0 < 2 ^ k
pow_pos zero = omega arith
pow_pos (suc k) = omega (arith, pow-suc 2 k, pow_pos k)

negative_shift : (k h : ℕ) → negsuc h *ℤ pos (2 ^ k) ≡ negsuc (h * 2 ^ k + (2 ^ k - 1))
unfolding ◌*ℤ◌
negative_shift k h =
    let q : suc h * 2 ^ k ≡ h * 2 ^ k + 2 ^ k = omega arith in ground (arith, q, pow_pos k)

even_step : (a l : ℕ) → bit_or (a * 2) l ≡ bit_or a (l / 2) * 2 + l % 2
even_step a l = let q : a * 2 / 2 ≡ a = omega arith in bit_or_lowest (a * 2) l ∙ rw q (omega arith)

double_shift : (k h : ℕ) → h * 2 ^ suc k ≡ h * 2 ^ k * 2
double_shift k h = ap (λ x. h * x) (pow-suc 2 k) ∙ sym (mul_assoc h (2 ^ k) 2)

-- The low bits of the one number are zero.
bit_or_add : (k h l : ℕ) → l < 2 ^ k → bit_or (h * 2 ^ k) l ≡ h * 2 ^ k + l
bit_or_add zero h l lt =
    let q : l ≡ 0 = omega arith in
    rw q (bit_or-none (h * 2 ^ 0) (h * 2 ^ 0) (omega arith) ∙ omega arith)
bit_or_add (suc k) h l lt =
    let p : 2 ^ suc k ≡ 2 ^ k * 2 = pow-suc 2 k in
    let i = bit_or_add k h (l / 2) (omega (arith, p)) in
    rw (double_shift k h) (even_step (h * 2 ^ k) l ∙ omega (arith, i))

odd_step : (a l : ℕ) → bit_and (a * 2 + 1) l ≡ bit_and a (l / 2) * 2 + l % 2
odd_step a l =
    let q : (a * 2 + 1) / 2 ≡ a = omega arith in bit_and_lowest (a * 2 + 1) l ∙ rw q (omega arith)

-- The low bits of the one number are all set.
bit_and_low : (k h l : ℕ) → l < 2 ^ k → bit_and (h * 2 ^ k + (2 ^ k - 1)) l ≡ l
bit_and_low zero h l lt =
    let q : l ≡ 0 = omega arith in
    rw q (bit_and-none (h * 2 ^ 0 + (2 ^ 0 - 1)) (h * 2 ^ 0 + (2 ^ 0 - 1)) (omega arith))
bit_and_low (suc k) h l lt =
    let p : 2 ^ suc k ≡ 2 ^ k * 2 = pow-suc 2 k in
    let i = bit_and_low k h (l / 2) (omega (arith, p)) in
    let a = h * 2 ^ k + (2 ^ k - 1) in
    let q : h * 2 ^ suc k + (2 ^ suc k - 1) ≡ a * 2 + 1 =
      omega (arith, p, double_shift k h, pow_pos k) in
    rw q (odd_step a l ∙ omega (arith, i))

less :
    (k h l : ℕ)
    → l < 2 ^ k
    → negsuc (h * 2 ^ k + (2 ^ k - 1) - l) ≡ negsuc (h * 2 ^ k + (2 ^ k - 1)) +ℤ pos l
unfolding ◌+ℤ◌
less k h l lt = ground (arith, pow_pos k)

-- A high part, shifted, with a low part: their sum.
pub or-shift_left :
    (k : ℕ) (h : ℤ) (l : ℕ) → l < 2 ^ k → or_ℤ (shift_left h k) (pos l) ≡ h *ℤ pos (2 ^ k) +ℤ pos l
unfolding or_ℤ shift_left
or-shift_left k (pos h) l lt =
    rw (pos-*ℤ h (2 ^ k)) (ap pos (bit_or_add k h l lt) ∙ sym (pos-+ℤ (h * 2 ^ k) l))
or-shift_left k (negsuc h) l lt =
    let n = h * 2 ^ k + (2 ^ k - 1) in
    rw (negative_shift k h) (ap (λ x. negsuc (n - x)) (bit_and_low k h l lt) ∙ less k h l lt)
