-- ===== src/ScVal/Tests.antt =====
-- Runs of the conversion of indexer/src/scval.js.
use pero_j.Base.{ℕ, arith, ◌^◌, List, [], ◌∷◌, ◌≡◌, refl}
use pero_j.Base.Int.{pos, negsuc, ◌-ℤ◌, ◌*ℤ◌, ◌+ℤ◌}
use pero_j.Base.Codes.{Text, codes, eq_text}
use pero_j.Base.Decimal.{
  print_before, print_ℕ, print_ℤ, negate, big_int, decimal_value, value_after,
}
use pero_j.ScVal.Words.{as_uint, as_int, shift_left, or_ℤ}
use pero_j.ScVal.{
  scv_i128, scv_u32, scv_void, scv_bytes, scv_symbol, scv_vec, scv_map, no_items, item, no_entries,
  entry, js_bigint, js_text, js_null, js_object, js_member, js_empty, hex_digit, to_hex, to_string,
  set_member, part, low_part, compose_u128, compose_i128, sc_val_to_js,
}
use pero_j.ScVal.Exact.{HasWords, integer_of, sc_val_to_js-exact}

program : Unit {0}
unfolding ◌-ℤ◌ ◌*ℤ◌ ◌+ℤ◌ codes eq_text print_before print_ℕ print_ℤ negate big_int decimal_value
    value_after as_uint as_int shift_left or_ℤ hex_digit to_hex to_string set_member part low_part
    compose_u128 compose_i128 sc_val_to_js HasWords integer_of
program = tt

abbrev no_key : List ℕ → Text
no_key bytes = []

minus_one :
    sc_val_to_js no_key no_key (scv_i128 (negsuc 0) 18446744073709551615) ≡ js_bigint (negsuc 0)
unfolding program
minus_one = refl

bytes : sc_val_to_js no_key no_key (scv_bytes (10 ∷ 255 ∷ [])) ≡ js_text (codes "0aff")
unfolding program
bytes = refl

-- The second entry of a key replaces the first.
repeated_key :
    sc_val_to_js no_key no_key (
      scv_map (
        entry
          (scv_symbol (codes "k"))
          (scv_u32 1)
          (entry (scv_symbol (codes "k")) scv_void no_entries)))
    ≡ js_object (js_member (codes "k") js_null js_empty)
unfolding program
repeated_key = refl

vector :
    to_string (sc_val_to_js no_key no_key (scv_vec (item (scv_u32 7) (item scv_void no_items))))
    ≡ codes "7,"
unfolding program
vector = refl

sc_val_to_js-exact_example :
    sc_val_to_js no_key no_key (scv_i128 (negsuc 0) 5)
    ≡ js_bigint (negsuc 0 *ℤ pos (2 ^ 64) +ℤ pos 5)
unfolding program
sc_val_to_js-exact_example =
    sc_val_to_js-exact no_key no_key (scv_i128 (negsuc 0) 5) (negsuc 0 *ℤ pos (2 ^ 64) +ℤ pos 5)
      ((omega arith, omega arith), omega arith) refl
