-- ===== src/ScVal/Exact.antt =====
-- The integers of the chain reach JavaScript exactly: indexer/src/scval.js.
use native.Mathlib.Nat.{mod-eq_of_lt}
use pero_j.Base.{
  ℕ, ◌+◌, ◌-◌, ◌*◌, ◌%◌, ◌^◌, ◌≤◌, ◌<◌, Option, none, some, ◌≡◌, ap, ◌∙◌, arith, List,
}
use pero_j.Base.Int.{ℤ, pos, negsuc, pos_part, neg_part, ◌+ℤ◌, ◌-ℤ◌, ◌*ℤ◌, pos-*ℤ, pos-+ℤ}
use pero_j.Base.Codes.{Text}
use pero_j.Base.Decimal.{big_int-print_ℤ}
use pero_j.ScVal.Words.{as_uint, as_int, shift_left, or_ℤ}
use pero_j.ScVal.Words.Compose.{or-shift_left}
use pero_j.ScVal.{
  ScVal, scv_bool, scv_void, scv_error, scv_u32, scv_i32, scv_bytes, scv_string, scv_symbol,
  scv_vec, scv_map, scv_address, scv_ledger_key_contract_instance, scv_contract_instance,
  scv_ledger_key_nonce, scv_other, scv_u64, scv_i64, scv_timepoint, scv_duration, scv_u128,
  scv_i128, scv_u256, scv_i256, js_bigint, part, low_part, compose_u128, compose_i128, or_parts,
  compose_u256, compose_i256, sc_val_to_js,
}

abbrev IsU64 : ℕ → Type 0
IsU64 n = n < 2 ^ 64

abbrev IsI64 : ℤ → Type 0
IsI64 z = (pos_part z < 2 ^ 63) × (neg_part z ≤ 2 ^ 63)

part_lem : (z : ℤ) → part z ≡ z
unfolding part
part_lem z = big_int-print_ℤ z

low_part_lem : (n : ℕ) → IsU64 n → low_part n ≡ pos n
unfolding low_part as_uint
low_part_lem n h = rw (part_lem (pos n)) (ap pos (omega arith))

as_uint_lem : (w n : ℕ) → n < 2 ^ w → as_uint w (pos n) ≡ n
unfolding as_uint
as_uint_lem w n h = mod-eq_of_lt h

-- A number in the range of the width is what it was.
as_int_lem :
    (w : ℕ) (z : ℤ)
    → 2 ^ w ≡ 2 ^ (w - 1) + 2 ^ (w - 1)
    → pos_part z < 2 ^ (w - 1)
    → neg_part z ≤ 2 ^ (w - 1)
    → as_int w z ≡ z
unfolding as_int as_uint ◌-ℤ◌
as_int_lem w (pos n) p h k =
    let q : n % 2 ^ w ≡ n = mod-eq_of_lt (omega (arith, p)) in ground (arith, q)
as_int_lem w (negsuc n) p h k =
    let q : n % 2 ^ w ≡ n = mod-eq_of_lt (omega (arith, p)) in ground (arith, q, p)

u128_lem : (hi lo : ℕ) → IsU64 hi → IsU64 lo → compose_u128 hi lo ≡ pos (hi * 2 ^ 64 + lo)
unfolding compose_u128
u128_lem hi lo h l = rw (low_part_lem hi h) (
    rw (low_part_lem lo l) (
      rw (or-shift_left 64 (pos hi) lo l) (
        rw (pos-*ℤ hi (2 ^ 64)) (
          rw (pos-+ℤ (hi * 2 ^ 64) lo)
            (ap pos (as_uint_lem 128 (hi * 2 ^ 64 + lo) (omega arith)))))))

i128_range :
    (hi : ℤ) (lo : ℕ)
    → IsI64 hi
    → IsU64 lo
    → (pos_part (hi *ℤ pos (2 ^ 64) +ℤ pos lo) < 2 ^ 127)
      × (neg_part (hi *ℤ pos (2 ^ 64) +ℤ pos lo) ≤ 2 ^ 127)
unfolding ◌*ℤ◌ ◌+ℤ◌
i128_range (pos hi) lo h l = (ground arith, ground arith)
i128_range (negsuc hi) lo h l = (ground arith, ground arith)

i128_lem :
    (hi : ℤ) (lo : ℕ) → IsI64 hi → IsU64 lo → compose_i128 hi lo ≡ hi *ℤ pos (2 ^ 64) +ℤ pos lo
unfolding compose_i128
i128_lem hi lo h l =
    let r = i128_range hi lo h l in
    rw (part_lem hi) (
      rw (low_part_lem lo l) (
        rw (or-shift_left 64 hi lo l)
          (as_int_lem 128 (hi *ℤ pos (2 ^ 64) +ℤ pos lo) (omega arith) r.0 r.1)))

-- The integer of four parts.
unfoldable of_parts : ℤ → ℕ → ℕ → ℕ → ℤ
of_parts a b c d = a *ℤ pos (2 ^ 192) +ℤ pos (b * 2 ^ 128 + c * 2 ^ 64 + d)

-- The parts read so far, as one shifted number.
two_parts : ℤ → ℕ → ℤ
two_parts a b = a *ℤ pos (2 ^ 64) +ℤ pos b

upper_two :
    (a : ℤ) (b : ℕ) → a *ℤ pos (2 ^ 192) +ℤ pos (b * 2 ^ 128) ≡ two_parts a b *ℤ pos (2 ^ 128)
unfolding two_parts ◌*ℤ◌ ◌+ℤ◌
upper_two (pos a) b = ground arith
upper_two (negsuc a) b = ground arith

upper_three :
    (z : ℤ) (c : ℕ) → z *ℤ pos (2 ^ 128) +ℤ pos (c * 2 ^ 64) ≡ two_parts z c *ℤ pos (2 ^ 64)
unfolding two_parts ◌*ℤ◌ ◌+ℤ◌
upper_three (pos a) c = ground arith
upper_three (negsuc a) c = ground arith

all_parts :
    (a : ℤ) (b c d : ℕ) → two_parts (two_parts a b) c *ℤ pos (2 ^ 64) +ℤ pos d ≡ of_parts a b c d
unfolding two_parts of_parts ◌*ℤ◌ ◌+ℤ◌
all_parts (pos a) b c d = ground arith
all_parts (negsuc a) b c d = ground arith

or_two :
    (a : ℤ) (b : ℕ)
    → IsU64 b
    → or_ℤ (shift_left a 192) (shift_left (low_part b) 128) ≡ shift_left (two_parts a b) 128
unfolding shift_left
or_two a b h =
    rw (low_part_lem b h)
      (rw (pos-*ℤ b (2 ^ 128)) (or-shift_left 192 a (b * 2 ^ 128) (omega arith) ∙ upper_two a b))

or_three :
    (z : ℤ) (c : ℕ)
    → IsU64 c
    → or_ℤ (shift_left z 128) (shift_left (low_part c) 64) ≡ shift_left (two_parts z c) 64
unfolding shift_left
or_three z c h =
    rw (low_part_lem c h)
      (rw (pos-*ℤ c (2 ^ 64)) (or-shift_left 128 z (c * 2 ^ 64) (omega arith) ∙ upper_three z c))

or_parts_lem :
    (a : ℤ) (b c d : ℕ) → IsU64 b → IsU64 c → IsU64 d → or_parts a b c d ≡ of_parts a b c d
unfolding or_parts
or_parts_lem a b c d hb hc hd = rw (or_two a b hb) (
    rw (or_three (two_parts a b) c hc) (
      rw (low_part_lem d hd)
        (or-shift_left 64 (two_parts (two_parts a b) c) d hd ∙ all_parts a b c d)))

i256_range :
    (a : ℤ) (b c d : ℕ)
    → IsI64 a
    → IsU64 b
    → IsU64 c
    → IsU64 d
    → (pos_part (of_parts a b c d) < 2 ^ 255) × (neg_part (of_parts a b c d) ≤ 2 ^ 255)
unfolding of_parts ◌*ℤ◌ ◌+ℤ◌
i256_range (pos a) b c d h hb hc hd = (ground arith, ground arith)
i256_range (negsuc a) b c d h hb hc hd = (ground arith, ground arith)

u256_parts :
    (a b c d : ℕ) → of_parts (pos a) b c d ≡ pos (a * 2 ^ 192 + (b * 2 ^ 128 + c * 2 ^ 64 + d))
unfolding of_parts
u256_parts a b c d = rw (pos-*ℤ a (2 ^ 192)) (pos-+ℤ (a * 2 ^ 192) (b * 2 ^ 128 + c * 2 ^ 64 + d))

u256_lem :
    (a b c d : ℕ)
    → IsU64 a
    → IsU64 b
    → IsU64 c
    → IsU64 d
    → compose_u256 a b c d ≡ pos (a * 2 ^ 192 + (b * 2 ^ 128 + c * 2 ^ 64 + d))
unfolding compose_u256
u256_lem a b c d ha hb hc hd =
    let n = a * 2 ^ 192 + (b * 2 ^ 128 + c * 2 ^ 64 + d) in
    let q : or_parts (low_part a) b c d ≡ pos n =
      ap (λ x. or_parts x b c d) (low_part_lem a ha)
      ∙ or_parts_lem (pos a) b c d hb hc hd
      ∙ u256_parts a b c d in
    rw q (ap pos (as_uint_lem 256 n (omega arith)))

i256_lem :
    (a : ℤ) (b c d : ℕ)
    → IsI64 a
    → IsU64 b
    → IsU64 c
    → IsU64 d
    → compose_i256 a b c d ≡ of_parts a b c d
unfolding compose_i256
i256_lem a b c d ha hb hc hd =
    let q : or_parts (part a) b c d ≡ of_parts a b c d =
      ap (λ x. or_parts x b c d) (part_lem a) ∙ or_parts_lem a b c d hb hc hd in
    let r = i256_range a b c d ha hb hc hd in
    rw q (as_int_lem 256 (of_parts a b c d) (omega arith) r.0 r.1)

-- The integer that a value stands for, and that its parts are words of the widths that the chain
-- gives them.
unfoldable pub integer_of : ScVal → Option ℤ
integer_of (scv_u64 n) = some (pos n)
integer_of (scv_i64 z) = some z
integer_of (scv_timepoint n) = some (pos n)
integer_of (scv_duration n) = some (pos n)
integer_of (scv_u128 hi lo) = some (pos (hi * 2 ^ 64 + lo))
integer_of (scv_i128 hi lo) = some (hi *ℤ pos (2 ^ 64) +ℤ pos lo)
integer_of (scv_u256 a b c d) = some (pos (a * 2 ^ 192 + (b * 2 ^ 128 + c * 2 ^ 64 + d)))
integer_of (scv_i256 a b c d) = some (a *ℤ pos (2 ^ 192) +ℤ pos (b * 2 ^ 128 + c * 2 ^ 64 + d))
integer_of v = none

unfoldable pub HasWords : ScVal → Type 0
HasWords (scv_u128 hi lo) = IsU64 hi × IsU64 lo
HasWords (scv_i128 hi lo) = IsI64 hi × IsU64 lo
HasWords (scv_u256 a b c d) = IsU64 a × IsU64 b × IsU64 c × IsU64 d
HasWords (scv_i256 a b c d) = IsI64 a × IsU64 b × IsU64 c × IsU64 d
HasWords v = Unit

of_some : (a b : ℤ) → ◌≡◌ {A = Option ℤ} (some a) (some b) → a ≡ b
of_some a b h = cc

-- Every integer of the chain, of 64, 128 or 256 bits, signed or not, becomes exactly that BigInt, if
-- its parts are 64-bit words.
pub sc_val_to_js-exact :
    (encode_account encode_contract : List ℕ → Text) (v : ScVal) (z : ℤ)
    → HasWords v
    → integer_of v ≡ some z
    → sc_val_to_js encode_account encode_contract v ≡ js_bigint z
unfolding HasWords integer_of sc_val_to_js compose_u256 compose_i256 of_parts
sc_val_to_js-exact ea ec (scv_u64 n) z w h = ap js_bigint (part_lem (pos n) ∙ of_some _ z h)
sc_val_to_js-exact ea ec (scv_timepoint n) z w h = ap js_bigint (part_lem (pos n) ∙ of_some _ z h)
sc_val_to_js-exact ea ec (scv_duration n) z w h = ap js_bigint (part_lem (pos n) ∙ of_some _ z h)
sc_val_to_js-exact ea ec (scv_i64 n) z w h = ap js_bigint (part_lem n ∙ of_some _ z h)
sc_val_to_js-exact ea ec (scv_u128 hi lo) z w h =
    ap js_bigint (u128_lem hi lo w.0 w.1 ∙ of_some _ z h)
sc_val_to_js-exact ea ec (scv_i128 hi lo) z w h =
    ap js_bigint (i128_lem hi lo w.0 w.1 ∙ of_some _ z h)
sc_val_to_js-exact ea ec (scv_u256 a b c d) z w h =
    ap js_bigint (u256_lem a b c d w.0 w.1 w.2 w.3 ∙ of_some _ z h)
sc_val_to_js-exact ea ec (scv_i256 a b c d) z w h =
    ap js_bigint (i256_lem a b c d w.0 w.1 w.2 w.3 ∙ of_some _ z h)
sc_val_to_js-exact ea ec (scv_bool b) z w h = absurd (cc)
sc_val_to_js-exact ea ec (scv_error e) z w h = absurd (cc)
sc_val_to_js-exact ea ec (scv_u32 n) z w h = absurd (cc)
sc_val_to_js-exact ea ec (scv_i32 n) z w h = absurd (cc)
sc_val_to_js-exact ea ec (scv_bytes bs) z w h = absurd (cc)
sc_val_to_js-exact ea ec (scv_string s) z w h = absurd (cc)
sc_val_to_js-exact ea ec (scv_symbol s) z w h = absurd (cc)
sc_val_to_js-exact ea ec (scv_vec items) z w h = absurd (cc)
sc_val_to_js-exact ea ec (scv_map m) z w h = absurd (cc)
sc_val_to_js-exact ea ec (scv_address a) z w h = absurd (cc)
sc_val_to_js-exact ea ec (scv_ledger_key_nonce n) z w h = absurd (cc)
sc_val_to_js-exact ea ec (scv_other s) z w h = absurd (cc)
sc_val_to_js-exact ea ec scv_void z w h = absurd (cc)
sc_val_to_js-exact ea ec scv_ledger_key_contract_instance z w h = absurd (cc)
sc_val_to_js-exact ea ec scv_contract_instance z w h = absurd (cc)
