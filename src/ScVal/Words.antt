-- ===== src/ScVal/Words.antt =====
-- BigInt words, as indexer/src/scval.js composes 128- and 256-bit integers of 64-bit parts:
-- `asUintN`, `asIntN`, `<<` and `|`. The bits of a negative number are those of its two's
-- complement.
pub mod Compose
pub mod Digits
use Prim.Native.Nat.{bit_and, bit_or}
use pero_j.Base.{ℕ, ◌+◌, ◌-◌, ◌*◌, ◌%◌, ◌^◌, ltb, if◌then◌else◌}
use pero_j.Base.Int.{ℤ, pos, negsuc, ◌-ℤ◌, ◌*ℤ◌}

-- `BigInt.asUintN(w, z)`
unfoldable pub as_uint : ℕ → ℤ → ℕ
as_uint w (pos n) = n % 2 ^ w
as_uint w (negsuc n) = 2 ^ w - 1 - n % 2 ^ w

-- `BigInt.asIntN(w, z)`
unfoldable pub as_int : ℕ → ℤ → ℤ
as_int w z = let r = as_uint w z in if ltb r (2 ^ (w - 1)) then pos r else pos r -ℤ pos (2 ^ w)

-- `z << k`
unfoldable pub shift_left : ℤ → ℕ → ℤ
shift_left z k = z *ℤ pos (2 ^ k)

-- `y | z`; the bits of -(n + 1) are those that n lacks.
unfoldable pub or_ℤ : ℤ → ℤ → ℤ
or_ℤ (pos a) (pos b) = pos (bit_or a b)
or_ℤ (pos a) (negsuc b) = negsuc (b - bit_and b a)
or_ℤ (negsuc a) (pos b) = negsuc (a - bit_and a b)
or_ℤ (negsuc a) (negsuc b) = negsuc (bit_and a b)
