-- ===== src/ScVal.antt =====
-- Conversion of the chain's values: `scValToJs` of indexer/src/scval.js. The SDK prints a 64-bit part
-- as decimal digits, which `BigInt` reads. How it writes addresses, errors and unknown values are
-- arguments.
pub mod Words
pub mod Exact
mod Tests
use pero_j.Base.{
  ℕ, ◌+◌, ◌/◌, ◌%◌, Bool, true, false, Option, none, some, List, [], ◌∷◌, ◌++◌, ltb, if◌then◌else◌,
}
use pero_j.Base.Int.{ℤ, pos}
use pero_j.Base.Codes.{Text, eq_text}
use pero_j.Base.Decimal.{print_ℕ, print_ℤ, big_int}
use pero_j.ScVal.Words.{as_uint, as_int, shift_left, or_ℤ}

-- An address: the bytes of an account's key, those of a contract, or another kind.
pub data Address : Type 0 where
  account contract : List ℕ → Address
  other_address : Text → Address

-- A value of the chain. A vector or a map may be absent.
mutual
  pub data ScVal : Type 0 where
    scv_bool : Bool → ScVal
    scv_void : ScVal
    scv_error : Text → ScVal
    scv_u32 scv_u64 scv_timepoint scv_duration : ℕ → ScVal
    scv_i32 scv_i64 : ℤ → ScVal
    scv_u128 : (hi lo : ℕ) → ScVal
    scv_i128 : (hi : ℤ) (lo : ℕ) → ScVal
    scv_u256 : (hi_hi hi_lo lo_hi lo_lo : ℕ) → ScVal
    scv_i256 : (hi_hi : ℤ) (hi_lo lo_hi lo_lo : ℕ) → ScVal
    scv_bytes : List ℕ → ScVal
    scv_string scv_symbol : Text → ScVal
    scv_vec : ScItems → ScVal
    scv_map : Entries → ScVal
    scv_address : Address → ScVal
    scv_ledger_key_contract_instance scv_contract_instance : ScVal
    scv_ledger_key_nonce : ℤ → ScVal
    scv_other : Text → ScVal

  pub data ScItems : Type 0 where
    no_items : ScItems
    item : ScVal → ScItems → ScItems

  pub data Entries : Type 0 where
    no_entries : Entries
    entry : (key val : ScVal) → Entries → Entries

-- A JavaScript value. An object has its members in the order in which they were first written.
mutual
  pub data Js : Type 0 where
    js_null : Js
    js_bool : Bool → Js
    js_number js_bigint : ℤ → Js
    js_text : Text → Js
    js_array : JsItems → Js
    js_object : JsMembers → Js

  pub data JsItems : Type 0 where
    js_end : JsItems
    js_item : Js → JsItems → JsItems

  pub data JsMembers : Type 0 where
    js_empty : JsMembers
    js_member : Text → Js → JsMembers → JsMembers

-- Two hexadecimal digits of each byte.
unfoldable pub hex_digit : ℕ → ℕ
hex_digit n = if ltb n 10 then 48 + n else 87 + n

unfoldable pub to_hex : List ℕ → Text
to_hex [] = []
to_hex (b ∷ bs) = hex_digit (b / 16) ∷ hex_digit (b % 16) ∷ to_hex bs

abbrev pub bool_text : Bool → Text
bool_text true = 116 ∷ 114 ∷ 117 ∷ 101 ∷ []
bool_text false = 102 ∷ 97 ∷ 108 ∷ 115 ∷ 101 ∷ []

-- `[object Object]`
abbrev pub object_text : Text
object_text = 91 ∷ 111 ∷ 98 ∷ 106 ∷ 101 ∷ 99 ∷ 116 ∷ 32 ∷ 79 ∷ 98 ∷ 106 ∷ 101 ∷ 99 ∷ 116 ∷ 93 ∷ []

abbrev pub null_text : Text
null_text = 110 ∷ 117 ∷ 108 ∷ 108 ∷ []

-- `String(value)`; a null in an array is written as nothing.
unfoldable mutual
  -- Where it does not throw: Decoder/Strings. An object that has an array for its prototype would be
  -- printed as one.
  pub to_string : Js → Text
  to_string js_null = null_text
  to_string (js_bool b) = bool_text b
  to_string (js_number n) = print_ℤ n
  to_string (js_bigint n) = print_ℤ n
  to_string (js_text s) = s
  to_string (js_array items) = join_items items
  to_string (js_object members) = object_text

  pub join_items : JsItems → Text
  join_items js_end = []
  join_items (js_item v js_end) = item_string v
  join_items (js_item v (js_item w rest)) = item_string v ++ 44 ∷ join_items (js_item w rest)

  pub item_string : Js → Text
  item_string js_null = []
  item_string (js_bool b) = bool_text b
  item_string (js_number n) = print_ℤ n
  item_string (js_bigint n) = print_ℤ n
  item_string (js_text s) = s
  item_string (js_array items) = join_items items
  item_string (js_object members) = object_text

-- `obj[k] = v`
unfoldable pub set_member : Text → Js → JsMembers → JsMembers
set_member k v js_empty = js_member k v js_empty
set_member k v (js_member j w rest) =
    let later = set_member k v rest in
    if eq_text j k then js_member j v rest else js_member j w later

-- `BigInt(part.toString())`
unfoldable pub part : ℤ → ℤ
part z = big_int (print_ℤ z)

unfoldable pub low_part : ℕ → ℤ
low_part n = pos (as_uint 64 (part (pos n)))

unfoldable pub compose_u128 : ℕ → ℕ → ℤ
compose_u128 hi lo = pos (as_uint 128 (or_ℤ (shift_left (low_part hi) 64) (low_part lo)))

unfoldable pub compose_i128 : ℤ → ℕ → ℤ
compose_i128 hi lo = as_int 128 (or_ℤ (shift_left (part hi) 64) (low_part lo))

-- The four parts, the highest as it was read.
unfoldable pub or_parts : ℤ → ℕ → ℕ → ℕ → ℤ
or_parts top hi_lo lo_hi lo_lo =
    or_ℤ
      (or_ℤ (or_ℤ (shift_left top 192) (shift_left (low_part hi_lo) 128))
        (shift_left (low_part lo_hi) 64))
      (low_part lo_lo)

unfoldable pub compose_u256 : ℕ → ℕ → ℕ → ℕ → ℤ
compose_u256 hi_hi hi_lo lo_hi lo_lo =
    pos (as_uint 256 (or_parts (low_part hi_hi) hi_lo lo_hi lo_lo))

unfoldable pub compose_i256 : ℤ → ℕ → ℕ → ℕ → ℤ
compose_i256 hi_hi hi_lo lo_hi lo_lo = as_int 256 (or_parts (part hi_hi) hi_lo lo_hi lo_lo)

-- `<nonce:…>`
unfoldable pub nonce_text : ℤ → Text
nonce_text n = 60 ∷ 110 ∷ 111 ∷ 110 ∷ 99 ∷ 101 ∷ 58 ∷ (print_ℤ (part n) ++ 62 ∷ [])

abbrev pub error_name : Text
error_name = 101 ∷ 114 ∷ 114 ∷ 111 ∷ 114 ∷ []

module _ (encode_account encode_contract : List ℕ → Text) where
  unfoldable pub address_text : Address → Text
  address_text (account key) = encode_account key
  address_text (contract id) = encode_contract id
  address_text (other_address s) = s

  unfoldable mutual
    pub sc_val_to_js : ScVal → Js
    sc_val_to_js (scv_bool b) = js_bool b
    sc_val_to_js scv_void = js_null
    sc_val_to_js (scv_error e) = js_object (js_member error_name (js_text e) js_empty)
    sc_val_to_js (scv_u32 n) = js_number (pos n)
    sc_val_to_js (scv_i32 z) = js_number z
    sc_val_to_js (scv_u64 n) = js_bigint (part (pos n))
    sc_val_to_js (scv_i64 z) = js_bigint (part z)
    sc_val_to_js (scv_timepoint n) = js_bigint (part (pos n))
    sc_val_to_js (scv_duration n) = js_bigint (part (pos n))
    sc_val_to_js (scv_u128 hi lo) = js_bigint (compose_u128 hi lo)
    sc_val_to_js (scv_i128 hi lo) = js_bigint (compose_i128 hi lo)
    sc_val_to_js (scv_u256 a b c d) = js_bigint (compose_u256 a b c d)
    sc_val_to_js (scv_i256 a b c d) = js_bigint (compose_i256 a b c d)
    sc_val_to_js (scv_bytes bs) = js_text (to_hex bs)
    sc_val_to_js (scv_string s) = js_text s
    sc_val_to_js (scv_symbol s) = js_text s
    sc_val_to_js (scv_vec items) = js_array (items_to_js items)
    sc_val_to_js (scv_map entries) = js_object (entries_to_js entries js_empty)
    sc_val_to_js (scv_address a) = js_text (address_text a)
    sc_val_to_js scv_ledger_key_contract_instance = js_text []
    sc_val_to_js scv_contract_instance = js_text []
    sc_val_to_js (scv_ledger_key_nonce n) = js_text (nonce_text n)
    sc_val_to_js (scv_other s) = js_text s

    pub items_to_js : ScItems → JsItems
    items_to_js no_items = js_end
    items_to_js (item v rest) = js_item (sc_val_to_js v) (items_to_js rest)

    -- The members so far are the second argument.
    pub entries_to_js : Entries → JsMembers → JsMembers
    entries_to_js no_entries obj = obj
    entries_to_js (entry k v rest) obj =
        entries_to_js rest (set_member (to_string (sc_val_to_js k)) (sc_val_to_js v) obj)
