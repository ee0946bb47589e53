-- ===== src/Decoder/Addresses/Found.antt =====
-- `extractAddresses` of indexer/src/decoder.js finds every public key in the values, once.
use pero_j.Base.{
  Bool, true, false, ◌&&◌, ◌||◌, List, [], ◌∷◌, ◌++◌, ◌≡◌, refl, ap, subst, ◌∙◌, arith, Bool-cases,
  inl, inr,
}
use pero_j.Base.Codes.{Text, eq_text, eq_text_self, eq_text_eq}
use pero_j.ScVal.{
  Js, JsItems, JsMembers, js_null, js_bool, js_number, js_bigint, js_text, js_array, js_object,
  js_end, js_item, js_empty, js_member,
}
use pero_j.Decoder.Sanitise.{is_public_key_shape}
use pero_j.Decoder.Addresses.{
  holds_text, add_text, walk_value, walk_items, walk_members, walk_all, extract_addresses,
}

-- The text stands in the value, at any depth, and has the shape of a public key.
unfoldable mutual
  pub occurs : Text → Js → Bool
  occurs a js_null = false
  occurs a (js_bool b) = false
  occurs a (js_number n) = false
  occurs a (js_bigint n) = false
  occurs a (js_text s) = is_public_key_shape s && eq_text s a
  occurs a (js_array items) = occurs_items a items
  occurs a (js_object members) = occurs_members a members

  pub occurs_items : Text → JsItems → Bool
  occurs_items a js_end = false
  occurs_items a (js_item v rest) = occurs a v || occurs_items a rest

  pub occurs_members : Text → JsMembers → Bool
  occurs_members a js_empty = false
  occurs_members a (js_member k v rest) = occurs a v || occurs_members a rest

unfoldable pub occurs_any : Text → List Js → Bool
occurs_any a [] = false
occurs_any a (v ∷ vs) = occurs a v || occurs_any a vs

-- No text stands twice.
unfoldable pub AllDistinct : List Text → Type 0
AllDistinct [] = Unit
AllDistinct (s ∷ ss) = (holds_text s ss ≡ false) × AllDistinct ss

holds-append :
    (a : Text) (ss : List Text) (t : Text)
    → holds_text a (ss ++ t ∷ []) ≡ (holds_text a ss || eq_text t a)
unfolding holds_text
holds-append a [] t = ground arith
holds-append a (s ∷ ss) t = ground (arith, holds-append a ss t)

holds-add :
    (a s : Text) (found : List Text)
    → holds_text a (add_text s found) ≡ (holds_text a found || eq_text s a)
unfolding add_text
holds-add a s found = elim (Bool-cases (holds_text s found)) [
  | inl e ↦ rw e (elim (Bool-cases (eq_text s a)) [
    | inl q ↦ let h = subst (λ x. holds_text x found ≡ true) (eq_text_eq s a q) e in ground arith
    | inr q ↦ ground arith
  ])
  | inr e ↦ rw e (holds-append a found s)
]

eq_text_flip : (s t : Text) → eq_text s t ≡ false → eq_text t s ≡ false
eq_text_flip s t h = elim (Bool-cases (eq_text t s)) [
  | inl q ↦
      let e : eq_text s t ≡ true = ap (λ x. eq_text s x) (eq_text_eq t s q) ∙ eq_text_self s in
      absurd (ground arith)
  | inr q ↦ q
]

append-IsSet :
    (ss : List Text) (t : Text)
    → AllDistinct ss
    → holds_text t ss ≡ false
    → AllDistinct (ss ++ t ∷ [])
unfolding AllDistinct holds_text
append-IsSet [] t h k = (refl, tt)
append-IsSet (s ∷ ss) t h k =
    (ground (arith, holds-append s ss t, eq_text_flip s t), append-IsSet ss t h.1 (ground arith))

add-IsSet : (s : Text) (found : List Text) → AllDistinct found → AllDistinct (add_text s found)
unfolding add_text
add-IsSet s found h = elim (Bool-cases (holds_text s found)) [
  | inl e ↦ rw e h
  | inr e ↦ rw e (append-IsSet found s h e)
]

or_assoc : (a b c : Bool) → ((a || b) || c) ≡ (a || (b || c))
or_assoc a b c = ground arith

-- A text that is added only if it has the shape.
holds-walk_text :
    (a s : Text) (found : List Text)
    → holds_text a (walk_value (js_text s) found) ≡ (holds_text a found || occurs a (js_text s))
unfolding walk_value occurs
holds-walk_text a s found = elim (Bool-cases (is_public_key_shape s)) [
  | inl e ↦ rw e (holds-add a s found)
  | inr e ↦ rw e (ground arith)
]

walk_text-IsSet :
    (s : Text) (found : List Text) → AllDistinct found → AllDistinct (walk_value (js_text s) found)
unfolding walk_value
walk_text-IsSet s found h = elim (Bool-cases (is_public_key_shape s)) [
  | inl e ↦ rw e (add-IsSet s found h)
  | inr e ↦ rw e h
]

nothing : (b : Bool) → b ≡ (b || false)
nothing b = ground arith

mutual
  unfolding walk_value occurs

  holds-walk :
      (a : Text) (v : Js) (found : List Text)
      → holds_text a (walk_value v found) ≡ (holds_text a found || occurs a v)
  holds-walk a js_null found = nothing (holds_text a found)
  holds-walk a (js_bool b) found = nothing (holds_text a found)
  holds-walk a (js_number n) found = nothing (holds_text a found)
  holds-walk a (js_bigint n) found = nothing (holds_text a found)
  holds-walk a (js_text s) found = holds-walk_text a s found
  holds-walk a (js_array items) found = holds-walk_items a items found
  holds-walk a (js_object members) found = holds-walk_members a members found

  holds-walk_items :
      (a : Text) (items : JsItems) (found : List Text)
      → holds_text a (walk_items items found) ≡ (holds_text a found || occurs_items a items)
  holds-walk_items a js_end found = nothing (holds_text a found)
  holds-walk_items a (js_item v rest) found =
      holds-walk_items a rest (walk_value v found)
      ∙ ap (λ b. b || occurs_items a rest) (holds-walk a v found)
      ∙ or_assoc (holds_text a found) (occurs a v) (occurs_items a rest)

  holds-walk_members :
      (a : Text) (members : JsMembers) (found : List Text)
      → holds_text a (walk_members members found) ≡ (holds_text a found || occurs_members a members)
  holds-walk_members a js_empty found = nothing (holds_text a found)
  holds-walk_members a (js_member k v rest) found =
      holds-walk_members a rest (walk_value v found)
      ∙ ap (λ b. b || occurs_members a rest) (holds-walk a v found)
      ∙ or_assoc (holds_text a found) (occurs a v) (occurs_members a rest)

mutual
  unfolding walk_value

  walk-IsSet : (v : Js) (found : List Text) → AllDistinct found → AllDistinct (walk_value v found)
  walk-IsSet js_null found h = h
  walk-IsSet (js_bool b) found h = h
  walk-IsSet (js_number n) found h = h
  walk-IsSet (js_bigint n) found h = h
  walk-IsSet (js_text s) found h = walk_text-IsSet s found h
  walk-IsSet (js_array items) found h = walk_items-IsSet items found h
  walk-IsSet (js_object members) found h = walk_members-IsSet members found h

  walk_items-IsSet :
      (items : JsItems) (found : List Text)
      → AllDistinct found
      → AllDistinct (walk_items items found)
  walk_items-IsSet js_end found h = h
  walk_items-IsSet (js_item v rest) found h =
      walk_items-IsSet rest (walk_value v found) (walk-IsSet v found h)

  walk_members-IsSet :
      (members : JsMembers) (found : List Text)
      → AllDistinct found
      → AllDistinct (walk_members members found)
  walk_members-IsSet js_empty found h = h
  walk_members-IsSet (js_member k v rest) found h =
      walk_members-IsSet rest (walk_value v found) (walk-IsSet v found h)

holds-walk_all :
    (a : Text) (vs : List Js) (found : List Text)
    → holds_text a (walk_all vs found) ≡ (holds_text a found || occurs_any a vs)
unfolding walk_all occurs_any
holds-walk_all a [] found = nothing (holds_text a found)
holds-walk_all a (v ∷ vs) found =
    holds-walk_all a vs (walk_value v found)
    ∙ ap (λ b. b || occurs_any a vs) (holds-walk a v found)
    ∙ or_assoc (holds_text a found) (occurs a v) (occurs_any a vs)

walk_all-IsSet :
    (vs : List Js) (found : List Text) → AllDistinct found → AllDistinct (walk_all vs found)
unfolding walk_all
walk_all-IsSet [] found h = h
walk_all-IsSet (v ∷ vs) found h = walk_all-IsSet vs (walk_value v found) (walk-IsSet v found h)

-- A text is among the extracted addresses exactly if it stands somewhere in the values, in nested
-- arrays and objects too, and has the shape of a public key; and no address stands there twice.
pub extract_addresses-occurs :
    (vs : List Js)
    → ((a : Text) → holds_text a (extract_addresses vs) ≡ occurs_any a vs)
      × AllDistinct (extract_addresses vs)
unfolding extract_addresses holds_text AllDistinct
extract_addresses-occurs vs = ((λ a. holds-walk_all a vs []), walk_all-IsSet vs [] tt)
