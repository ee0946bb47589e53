-- ===== src/Decoder/Sanitise.antt =====
-- What a generic description shows of the arguments of an event: `isSensitive`, `sanitiseArg`,
-- `genericDescription` and `fmt` of indexer/src/decoder.js.
pub mod Safe
use pero_j.Base.{
  ℕ, zero, suc, ◌-◌, Bool, true, false, not, ◌&&◌, ◌||◌, List, [], ◌∷◌, ◌++◌, map, ltb, leb, ◌==◌,
  if◌then◌else◌, length, take, drop,
}
use pero_j.Base.Codes.{Text, codes}
use pero_j.ScVal.{Js, js_text, to_string}

abbrev is_between : ℕ → ℕ → ℕ → Bool
is_between low high c = leb low c && leb c high

unfoldable pub is_upper_or_digit : ℕ → Bool
is_upper_or_digit c = is_between 65 90 c || is_between 48 57 c

unfoldable pub is_hex : ℕ → Bool
is_hex c = is_between 48 57 c || (is_between 97 102 c || is_between 65 70 c)

unfoldable pub is_base64_char : ℕ → Bool
is_base64_char c =
    is_between 65 90 c || (is_between 97 122 c || (is_between 48 57 c || ((c == 43) || (c == 47))))

unfoldable pub all_chars : (ℕ → Bool) → Text → Bool
all_chars p [] = true
all_chars p (c ∷ s) = p c && all_chars p s

-- `={0,2}$`, with so many signs allowed.
unfoldable pub is_padding : ℕ → Text → Bool
is_padding n [] = true
is_padding zero (c ∷ s) = false
is_padding (suc n) (c ∷ s) = (c == 61) && is_padding n s

unfoldable pub is_base64_rest : Text → Bool
is_base64_rest [] = true
is_base64_rest (c ∷ s) =
    let rest = is_base64_rest s in if is_base64_char c then rest else is_padding 2 (c ∷ s)

-- `/^[A-Za-z0-9+/]+={0,2}$/`
unfoldable pub is_base64 : Text → Bool
is_base64 [] = false
is_base64 (c ∷ s) = is_base64_char c && is_base64_rest s

unfoldable pub starts_with_g : Text → Bool
starts_with_g [] = false
starts_with_g (c ∷ s) = c == 71

abbrev pub max_arg_display_len : ℕ
max_arg_display_len = 128

-- `s.slice(-n)`
unfoldable pub slice_last : ℕ → Text → Text
slice_last n s = drop (length s - n) s

abbrev pub ellipsis : ℕ
ellipsis = 8230

abbrev pub redacted : Text
redacted = 91 ∷ 82 ∷ 69 ∷ 68 ∷ 65 ∷ 67 ∷ 84 ∷ 69 ∷ 68 ∷ 93 ∷ []

unfoldable pub join_texts : Text → List Text → Text
join_texts sep [] = []
join_texts sep (s ∷ []) = s
join_texts sep (s ∷ t ∷ ts) = s ++ sep ++ join_texts sep (t ∷ ts)

module _ (is_key : Text → Bool) where
  unfoldable pub is_sensitive : Text → Bool
  is_sensitive s =
      ((length s == 56) && (starts_with_g s && not (is_key s)))
      || ((leb 64 (length s) && all_chars is_hex s) || (leb 44 (length s) && is_base64 s))

  unfoldable pub sanitise_text : Text → Text
  sanitise_text s =
      if is_key s
      then s
      else if is_sensitive s
      then redacted
      else if ltb max_arg_display_len (length s)
      then take 32 s ++ ellipsis ∷ slice_last 16 s
      else s

  unfoldable pub sanitise_arg : Js → Text
  sanitise_arg v = sanitise_text (to_string v)

  unfoldable pub generic_description : Text → List Js → Text → Text
  generic_description fn args contract =
      fn
      ++ codes "("
      ++ join_texts (codes ", ") (map sanitise_arg args)
      ++ codes ") called on "
      ++ contract

-- `/^[GC][A-Z0-9]{55}$/`
unfoldable pub is_address : Text → Bool
is_address [] = false
is_address (c ∷ s) = ((c == 71) || (c == 67)) && ((length s == 55) && all_chars is_upper_or_digit s)

-- `/^G[A-Z0-9]{55}$/`
unfoldable pub is_public_key_shape : Text → Bool
is_public_key_shape [] = false
is_public_key_shape (c ∷ s) = (c == 71) && ((length s == 55) && all_chars is_upper_or_digit s)

unfoldable pub short_address : Text → Text
short_address s = if is_address s then take 6 s ++ ellipsis ∷ slice_last 4 s else s

unfoldable pub fmt : Js → Text
fmt (js_text s) = short_address s
fmt v = to_string v
