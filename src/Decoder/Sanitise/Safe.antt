-- ===== src/Decoder/Sanitise/Safe.antt =====
-- No argument that looks like a secret reaches a generic description: indexer/src/decoder.js.
use pero_j.Base.{
  ℕ, zero, suc, ◌-◌, ◌≤◌, ◌<◌, Bool, true, false, List, [], ◌∷◌, ◌++◌, map, ◌≡◌, refl, ◌⊎◌, inl,
  inr, arith, ltb, length, take, All, Bool-cases, length-append, length-drop, length-take, ap,
}
use pero_j.Base.Codes.{Text, codes}
use pero_j.ScVal.{Js, to_string}
use pero_j.Decoder.Sanitise.{
  all_chars, is_hex, is_base64_char, is_padding, is_base64_rest, is_base64, starts_with_g, ellipsis,
  redacted, slice_last, is_sensitive, sanitise_text, sanitise_arg, join_texts, generic_description,
}

hex_broken : (xs ys : Text) → all_chars is_hex (xs ++ ellipsis ∷ ys) ≡ false
unfolding all_chars is_hex
hex_broken [] ys = ground arith
hex_broken (c ∷ xs) ys = ground (arith, hex_broken xs ys)

padding_broken : (n : ℕ) (xs ys : Text) → is_padding n (xs ++ ellipsis ∷ ys) ≡ false
unfolding is_padding
padding_broken zero [] ys = refl
padding_broken zero (c ∷ xs) ys = refl
padding_broken (suc n) [] ys = ground arith
padding_broken (suc n) (c ∷ xs) ys = ground (arith, padding_broken n xs ys)

rest_broken : (xs ys : Text) → is_base64_rest (xs ++ ellipsis ∷ ys) ≡ false
unfolding is_base64_rest is_base64_char
rest_broken [] ys = padding_broken 2 [] ys
rest_broken (c ∷ xs) ys = elim (Bool-cases (is_base64_char c)) [
  | inl e ↦ rw e (rest_broken xs ys)
  | inr e ↦ rw e (padding_broken 2 (c ∷ xs) ys)
]

base64_broken : (xs ys : Text) → is_base64 (xs ++ ellipsis ∷ ys) ≡ false
unfolding is_base64 is_base64_char
base64_broken [] ys = ground arith
base64_broken (c ∷ xs) ys = ground (arith, rest_broken xs ys)

-- Hexadecimal digits, and the characters of base64.
unfoldable pub IsHexDigit : ℕ → Type 0
IsHexDigit c = ((48 ≤ c) × (c ≤ 57)) ⊎ ((97 ≤ c) × (c ≤ 102)) ⊎ ((65 ≤ c) × (c ≤ 70))

unfoldable pub IsBase64Char : ℕ → Type 0
IsBase64Char c =
    ((65 ≤ c) × (c ≤ 90)) ⊎ ((97 ≤ c) × (c ≤ 122)) ⊎ ((48 ≤ c) × (c ≤ 57)) ⊎ ((c ≡ 43) ⊎ (c ≡ 47))

-- At most two signs =.
unfoldable pub IsPad : Text → Type 0
IsPad s = (s ≡ []) ⊎ ((s ≡ 61 ∷ []) ⊎ (s ≡ 61 ∷ 61 ∷ []))

-- The three kinds of secrets: 64 or more hexadecimal digits; a text in base64, padded or not, of 44
-- or more characters; and 56 characters from G on.
unfoldable pub IsHexSecret : Text → Type 0
IsHexSecret s = (64 ≤ length s) × All IsHexDigit s

unfoldable pub IsBase64Secret : Text → Type 0
IsBase64Secret s =
    (44 ≤ length s)
    × ((c : ℕ) × (body : Text) × (pad : Text) × (s ≡ (c ∷ body) ++ pad)
        × All IsBase64Char (c ∷ body)
        × IsPad pad)

unfoldable pub IsKeyLike : Text → Type 0
IsKeyLike s = (length s ≡ 56) × ((rest : Text) × (s ≡ 71 ∷ rest))

-- What may be shown: a public key, or a text that is not long and is no secret.
unfoldable pub IsSafe : (Text → Bool) → Text → Type 0
IsSafe is_key s =
    (is_key s ≡ true)
    ⊎ ((length s ≤ 128) × (IsHexSecret s → ⊥) × (IsBase64Secret s → ⊥) × (IsKeyLike s → ⊥))

hex-All : (s : Text) → All IsHexDigit s → all_chars is_hex s ≡ true
unfolding all_chars is_hex IsHexDigit
hex-All [] h = refl
hex-All (c ∷ s) h = let rest = hex-All s h.1 in let first = h.0 in ground arith

pad_rest : (pad : Text) → IsPad pad → is_base64_rest pad ≡ true
unfolding IsPad is_base64_rest is_base64_char is_padding
pad_rest pad (inl e) = rw e refl
pad_rest pad (inr (inl e)) = rw e refl
pad_rest pad (inr (inr e)) = rw e refl

char_lem : (c : ℕ) → IsBase64Char c → is_base64_char c ≡ true
unfolding is_base64_char IsBase64Char
char_lem c h = ground arith

base64_rest :
    (body pad : Text) → All IsBase64Char body → IsPad pad → is_base64_rest (body ++ pad) ≡ true
unfolding is_base64_rest
base64_rest [] pad h p = pad_rest pad p
base64_rest (c ∷ body) pad h p = rw (char_lem c h.0) (base64_rest body pad h.1 p)

base64_all : (s : Text) → IsBase64Secret s → is_base64 s ≡ true
unfolding is_base64 IsBase64Secret
base64_all s (long, (c, body, pad, e, h, p)) =
    rw e (rw (char_lem c h.0) (base64_rest body pad h.1 p))

starts_lem : (s rest : Text) → s ≡ 71 ∷ rest → starts_with_g s ≡ true
unfolding starts_with_g
starts_lem s rest e = rw e refl

-- A text that the code takes for harmless is no secret.
no_secret :
    (is_key : Text → Bool) (s : Text)
    → is_key s ≡ false
    → is_sensitive is_key s ≡ false
    → (IsHexSecret s → ⊥) × (IsBase64Secret s → ⊥) × (IsKeyLike s → ⊥)
unfolding is_sensitive IsHexSecret IsBase64Secret IsKeyLike
no_secret is_key s k h = (
  (λ x. let a = hex-All s x.1 in let b = x.0 in ground arith),
  (λ x. let a = base64_all s x in let b = x.0 in ground arith),
  (λ x. let a = starts_lem s x.1.0 x.1.1 in let b = x.0 in ground arith),
)

shortened_length :
    (s : Text) → 128 < length s → length (take 32 s ++ ellipsis ∷ slice_last 16 s) ≡ 49
unfolding slice_last
shortened_length s h = omega (
  arith,
  length-append (take 32 s) (ellipsis ∷ slice_last 16 s),
  length-drop (length s - 16) s,
  length-take 32 s (omega arith),
)

IsSafe-if :
    (is_key : Text → Bool) (s : Text)
    → is_sensitive is_key s ≡ false
    → length s ≤ 128
    → IsSafe is_key s
unfolding IsSafe
IsSafe-if is_key s e short = elim (Bool-cases (is_key s)) [
  | inl k ↦ inl k
  | inr k ↦ let n = no_secret is_key s k e in inr (short, n.0, n.1, n.2)
]

shortened-IsSafe :
    (is_key : Text → Bool) (s : Text)
    → 128 < length s
    → IsSafe is_key (take 32 s ++ ellipsis ∷ slice_last 16 s)
unfolding is_sensitive
shortened-IsSafe is_key s h =
    let n = shortened_length s h in
    IsSafe-if is_key (take 32 s ++ ellipsis ∷ slice_last 16 s)
      (ground (
        arith,
        n,
        hex_broken (take 32 s) (slice_last 16 s),
        base64_broken (take 32 s) (slice_last 16 s),
      ))
      (omega (arith, n))

redacted-IsSafe : (is_key : Text → Bool) → IsSafe is_key redacted
unfolding is_sensitive
redacted-IsSafe is_key = IsSafe-if is_key redacted refl (omega arith)

key-IsSafe : (is_key : Text → Bool) (s : Text) → is_key s ≡ true → IsSafe is_key s
unfolding IsSafe
key-IsSafe is_key s k = inl k

sanitise_text-IsSafe : (is_key : Text → Bool) (s : Text) → IsSafe is_key (sanitise_text is_key s)
unfolding sanitise_text
sanitise_text-IsSafe is_key s = elim (Bool-cases (is_key s)) [
  | inl k ↦ rw k (key-IsSafe is_key s k)
  | inr k ↦ elim (Bool-cases (is_sensitive is_key s)) [
    | inl e ↦ rw k (rw e (redacted-IsSafe is_key))
    | inr e ↦ elim (Bool-cases (ltb 128 (length s))) [
      | inl long ↦ rw k (rw e (rw long (shortened-IsSafe is_key s (ground arith))))
      | inr short ↦ rw k (rw e (rw short (IsSafe-if is_key s e (ground arith))))
    ]
  ]
]

All-IsSafe :
    (is_key : Text → Bool) (args : List Js) → All (IsSafe is_key) (map (sanitise_arg is_key) args)
unfolding sanitise_arg
All-IsSafe is_key [] = tt
All-IsSafe is_key (v ∷ args) = (sanitise_text-IsSafe is_key (to_string v), All-IsSafe is_key args)

-- A generic description is the name of the function and the label of the contract, as they are,
-- around the texts that are shown of the arguments, one for each and joined by commas. Whatever the
-- arguments are, each of these texts is a valid public key, or it has at most 128 characters and is
-- neither 64 or more hexadecimal digits, nor 44 or more characters in base64, nor 56 characters that
-- begin with G.
pub generic_description-IsSafe :
    (is_key : Text → Bool) (fn : Text) (args : List Js) (contract : Text)
    → (shown : List Text) × (generic_description is_key fn args contract
        ≡ fn ++ codes "(" ++ join_texts (codes ", ") shown ++ codes ") called on " ++ contract)
      × (length shown ≡ length args)
      × All (IsSafe is_key) shown
unfolding generic_description
generic_description-IsSafe is_key fn args contract =
    (map (sanitise_arg is_key) args, refl, length-map args, All-IsSafe is_key args)
  where
    length-map : (vs : List Js) → length (map (sanitise_arg is_key) vs) ≡ length vs
    length-map [] = refl
    length-map (v ∷ vs) = ap suc (length-map vs)
