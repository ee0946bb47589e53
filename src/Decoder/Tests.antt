-- ===== src/Decoder/Tests.antt =====
-- Runs of the event decoder of indexer/src/decoder.js.
use pero_j.Base.{
  ℕ, Bool, true, false, Option, none, some, List, [], ◌∷◌, ◌++◌, ◌≡◌, refl, length, All, returned,
  thrown,
}
use pero_j.Base.Int.{pos}
use pero_j.Base.Codes.{Text, codes, eq_text}
use pero_j.Base.Decimal.{print_before, print_ℕ, print_ℤ}
use pero_j.ScVal.{
  Js, js_text, js_number, js_array, js_item, js_end, js_object, js_member, js_empty, to_string,
}
use pero_j.Decoder.Sanitise.{
  is_upper_or_digit, is_hex, is_base64_char, all_chars, is_padding, is_base64_rest, is_base64,
  starts_with_g, slice_last, join_texts, is_sensitive, sanitise_text, sanitise_arg,
  generic_description, is_address, is_public_key_shape, short_address, fmt,
}
use pero_j.Decoder.Sanitise.Safe.{IsSafe, generic_description-IsSafe}
use pero_j.Decoder.Strings.{string_throws, any_throws}
use pero_j.Decoder.Describe.{
  arg, shown, fmt_arg, or_blank, join_all, moved, describe_oracle, describe_lending,
  build_description,
}
use pero_j.Decoder.Addresses.{holds_text, add_text, walk_value, walk_all, extract_addresses}
use pero_j.Decoder.Addresses.Found.{occurs_any, AllDistinct, extract_addresses-occurs}
use pero_j.Decoder.{
  RawEvent, Decoded, find_meta, remember, or_null, is_mapped, has_function, decode_topic, text_of,
  function_name, rest_of_topics, first_eight, name_or, contract_label, describe, decode, decoded_as,
  finish, decode_value, throws, no_text,
}

program : Unit {0}
unfolding codes eq_text print_before print_ℕ print_ℤ to_string is_upper_or_digit is_hex
    is_base64_char all_chars is_padding is_base64_rest is_base64 starts_with_g slice_last join_texts
    is_sensitive sanitise_text sanitise_arg generic_description is_address is_public_key_shape
    short_address fmt arg shown fmt_arg or_blank join_all moved describe_oracle describe_lending
    build_description holds_text add_text walk_value walk_all extract_addresses find_meta remember
    or_null is_mapped has_function decode_topic text_of function_name rest_of_topics first_eight
    name_or contract_label describe decode decoded_as finish decode_value throws string_throws
    any_throws
program = tt

abbrev no_key : Text → Bool
no_key s = false

abbrev no_sac : Text → Option Text
no_sac s = none

-- 64 hexadecimal digits
abbrev secret : Text
secret = codes "00112233445566778899aabbccddeeff00112233445566778899aabbccddeeff"

abbrev key : Text
key = codes "GAAAAAAAAAAAAAAAAAAAAAAAAAAAAAAAAAAAAAAAAAAAAAAAAAAAAAAA"

hidden :
    generic_description no_key (codes "f") (js_text secret ∷ js_number (pos 7) ∷ []) (codes "C1")
    ≡ codes "f([REDACTED], 7) called on C1"
unfolding program
hidden = refl

-- The description of a known event shows its arguments as they are.
shown_in_mint :
    build_description no_key
      (codes "mint")
      (js_text key ∷ js_text secret ∷ [])
      (js_number (pos 0))
      (codes "C1")
    ≡ secret ++ codes "  minted to GAAAAA…AAAA on C1"
unfolding program
shown_in_mint = refl

transferred :
    build_description no_key (codes "transfer") (js_text key ∷ []) (js_number (pos 5)) (codes "C1")
    ≡ codes "Address GAAAAA…AAAA transferred 5 to undefined on C1"
unfolding program
transferred = refl

abbrev values : List Js
values = js_array (js_item (js_text key) js_end) ∷ js_text key ∷ js_text secret ∷ []

extracted : extract_addresses values ≡ key ∷ []
unfolding program
extracted = refl

-- A topic that cannot be converted, and a database that does not answer.
abbrev event : RawEvent ℕ
event = record {
  contract_id = codes "C1";
  topics = returned (js_text (codes "f")) ∷ thrown 3 ∷ returned (js_text secret) ∷ [];
  value = returned (js_number (pos 1));
  ledger = 8;
  tx_hash = codes "t";
}

abbrev decoded : Decoded
decoded = record {
  contract_id = codes "C1";
  function = codes "f";
  ledger = 8;
  tx_hash = codes "t";
  description = codes "f(<decode_error>, [REDACTED]) called on C1";
  raw_topics = codes "f" ∷ codes "<decode_error>" ∷ secret ∷ [];
  raw_data = js_number (pos 1);
  event_addresses = [];
  sac_asset = none;
  warned = true;
}

decoded_anyway :
    decode no_key no_sac none (thrown 5) event
    ≡ (returned decoded, some (record { meta = none; ttl = 2000 }))
unfolding program
decoded_anyway = refl

generic_description-IsSafe_example :
    (shown : List Text) × (generic_description no_key (codes "f") (js_text secret ∷ []) (codes "C1")
      ≡ codes "f"
        ++ codes "("
        ++ join_texts (codes ", ") shown
        ++ codes ") called on "
        ++ codes "C1")
    × (length shown ≡ 1)
    × All (IsSafe no_key) shown
generic_description-IsSafe_example =
    generic_description-IsSafe no_key (codes "f") (js_text secret ∷ []) (codes "C1")

extract_addresses-occurs_example :
    ((a : Text) → holds_text a (extract_addresses values) ≡ occurs_any a values)
    × AllDistinct (extract_addresses values)
extract_addresses-occurs_example = extract_addresses-occurs values

-- A topic that is a map with the key "toString": the call throws, after the cache was written.
abbrev hostile : RawEvent ℕ
hostile = record event {
  topics =
      returned (js_text (codes "f"))
      ∷ returned (js_object (js_member (codes "toString") (js_text (codes "x")) js_empty))
      ∷ [];
}

no_record :
    decode no_key no_sac none (thrown 5) hostile
    ≡ (thrown no_text, some (record { meta = none; ttl = 2000 }))
unfolding program
no_record = refl
