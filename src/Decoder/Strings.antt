-- ===== src/Decoder/Strings.antt =====
-- Where `String(value)` throws in indexer/src/decoder.js. The objects that scval.js builds have the
-- keys of a map of the chain, and no value of theirs is a function: a member named `toString` hides
-- the method that `String` calls, and a member named `__proto__` takes the methods away, if it is
-- null, or replaces them by those of another value.
use pero_j.Base.{Bool, true, false, ◌||◌, List, [], ◌∷◌, if◌then◌else◌}
use pero_j.Base.Codes.{codes, eq_text}
use pero_j.ScVal.{
  Js, JsItems, JsMembers, js_null, js_array, js_object, js_end, js_item, js_empty, js_member,
}

unfoldable mutual
  pub string_throws : Js → Bool
  string_throws (js_array items) = items_throw items
  string_throws (js_object members) = members_throw members
  string_throws v = false

  pub items_throw : JsItems → Bool
  items_throw js_end = false
  items_throw (js_item v items) = string_throws v || items_throw items

  -- A member's name matters, and the value of `__proto__`.
  pub members_throw : JsMembers → Bool
  members_throw js_empty = false
  members_throw (js_member k v members) =
      let others = members_throw members in
      let proto = proto_throws v in
      if eq_text k (codes "toString")
      then true
      else if eq_text k (codes "__proto__")
      then proto || others
      else others

  pub proto_throws : Js → Bool
  proto_throws js_null = true
  proto_throws (js_array items) = items_throw items
  proto_throws (js_object members) = members_throw members
  proto_throws v = false

unfoldable pub any_throws : List Js → Bool
any_throws [] = false
any_throws (v ∷ vs) = string_throws v || any_throws vs
