-- ===== src/Decoder/Addresses.antt =====
-- The public keys in the values of an event: `extractAddresses` of indexer/src/decoder.js.
pub mod Found
use pero_j.Base.{Bool, true, false, ◌||◌, List, [], ◌∷◌, ◌++◌, if◌then◌else◌}
use pero_j.Base.Codes.{Text, eq_text}
use pero_j.ScVal.{
  Js, JsItems, JsMembers, js_null, js_bool, js_number, js_bigint, js_text, js_array, js_object,
  js_end, js_item, js_empty, js_member,
}
use pero_j.Decoder.Sanitise.{is_public_key_shape}

-- `found.has(s)`
unfoldable pub holds_text : Text → List Text → Bool
holds_text s [] = false
holds_text s (t ∷ ts) = eq_text t s || holds_text s ts

-- `found.add(s)`: a set keeps the order in which its members were added.
unfoldable pub add_text : Text → List Text → List Text
add_text s found = if holds_text s found then found else found ++ s ∷ []

unfoldable mutual
  pub walk_value : Js → List Text → List Text
  walk_value js_null found = found
  walk_value (js_bool b) found = found
  walk_value (js_number n) found = found
  walk_value (js_bigint n) found = found
  walk_value (js_text s) found = if is_public_key_shape s then add_text s found else found
  walk_value (js_array items) found = walk_items items found
  walk_value (js_object members) found = walk_members members found

  pub walk_items : JsItems → List Text → List Text
  walk_items js_end found = found
  walk_items (js_item v rest) found = walk_items rest (walk_value v found)

  pub walk_members : JsMembers → List Text → List Text
  walk_members js_empty found = found
  walk_members (js_member k v rest) found = walk_members rest (walk_value v found)

unfoldable pub walk_all : List Js → List Text → List Text
walk_all [] found = found
walk_all (v ∷ vs) found = walk_all vs (walk_value v found)

unfoldable pub extract_addresses : List Js → List Text
extract_addresses values = walk_all values []
