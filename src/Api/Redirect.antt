-- ===== src/Api/Redirect.antt =====
-- The redirect of old addresses in indexer/src/api.js, from /api/… to /api/v1/….
use pero_j.Base.{
  ℕ, Bool, true, false, not, ◌&&◌, ◌||◌, Option, none, some, [], ◌∷◌, ◌++◌, ◌≡◌, refl, sym, subst,
  ap, ◌∙◌, ◌⊎◌, inl, inr, arith, ◌==◌, if◌then◌else◌, Bool-cases,
}
use pero_j.Base.Codes.{Text, codes, eq_text, same_text}

unfoldable pub starts_with : Text → Text → Bool
starts_with [] s = true
starts_with (p ∷ ps) [] = false
starts_with (p ∷ ps) (c ∷ s) = (p == c) && starts_with ps s

-- `(?=\/|\?|$)`
unfoldable pub ends_segment : Text → Bool
ends_segment [] = true
ends_segment (c ∷ s) = (c == 47) || (c == 63)

-- `url.replace(/^\/api(?=\/|\?|$)/, "/api/v1")` of an address that starts with /api.
unfoldable pub new_address : Text → Text
new_address (a ∷ b ∷ c ∷ d ∷ rest) =
    if ends_segment rest then codes "/api/v1" ++ rest else a ∷ b ∷ c ∷ d ∷ rest
new_address url = url

unfoldable pub is_legacy : Text → Bool
is_legacy url =
    starts_with (codes "/api") url
    && (not (starts_with (codes "/api/v1/") url) && not (eq_text url (codes "/api/v1")))

-- Where the request is sent, with status 301, or `none` when it goes on to the routes.
unfoldable pub legacy_redirect : Text → Option Text
legacy_redirect url = if is_legacy url then some (new_address url) else none

starts_with-split : (p s : Text) → starts_with p s ≡ true → (rest : Text) × (s ≡ p ++ rest)
unfolding starts_with
starts_with-split [] s h = (s, refl)
starts_with-split (c ∷ p) [] h = absurd (cc)
starts_with-split (c ∷ p) (d ∷ s) h =
    let c_d : (c == d) ≡ true = ground arith in
    let (rest, q) = starts_with-split p s (ground arith) in
    (rest, same_text d c s (p ++ rest) (ground arith) q)

is_legacy-split : (url : Text) → is_legacy url ≡ true → (rest : Text) × (url ≡ codes "/api" ++ rest)
unfolding is_legacy
is_legacy-split url h = starts_with-split (codes "/api") url (ground arith)

-- Addresses below /api/v1/ are not redirected.
settled : (rest : Text) → legacy_redirect (codes "/api/v1" ++ 47 ∷ rest) ≡ none
unfolding legacy_redirect is_legacy starts_with codes eq_text
settled rest = refl

-- The addresses that follow one that is redirected.
unfoldable pub Settles : Text → Type 0
Settles t =
    (legacy_redirect t ≡ none)
    ⊎ ((next : Text) × (legacy_redirect t ≡ some next) × (legacy_redirect next ≡ none))

segment_end : (c : ℕ) → ends_segment (c ∷ []) ≡ true → (c ≡ 47) ⊎ (c ≡ 63)
unfolding ends_segment
segment_end c h = ground arith

query-Settles : (rest : Text) → Settles (codes "/api/v1" ++ 63 ∷ rest)
unfolding Settles legacy_redirect is_legacy new_address ends_segment starts_with codes eq_text
query-Settles rest = inr (codes "/api/v1/v1" ++ 63 ∷ rest, refl, refl)

v1-Settles : (rest : Text) → ends_segment rest ≡ true → Settles (codes "/api/v1" ++ rest)
unfolding ends_segment Settles legacy_redirect is_legacy starts_with codes eq_text
v1-Settles [] h = inl refl
v1-Settles (c ∷ rest) h = elim (segment_end c h) [
  | inl e ↦ subst (λ x. Settles (codes "/api/v1" ++ x ∷ rest)) (sym e) (inl (settled rest))
  | inr e ↦ subst (λ x. Settles (codes "/api/v1" ++ x ∷ rest)) (sym e) (query-Settles rest)
]

new_address-api :
    (rest : Text)
    → new_address (codes "/api" ++ rest)
      ≡ (if ends_segment rest then codes "/api/v1" ++ rest else codes "/api" ++ rest)
unfolding new_address codes
new_address-api rest = refl

of_some : (a b : Text) → ◌≡◌ {A = Option Text} (some a) (some b) → a ≡ b
of_some a b h = cc

none-some : (t : Text) → ◌≡◌ {A = Option Text} none (some t) → ⊥
none-some t h = cc

target :
    (url t : Text) → legacy_redirect url ≡ some t → (is_legacy url ≡ true) × (new_address url ≡ t)
unfolding legacy_redirect
target url t h = elim (Bool-cases (is_legacy url)) [
  | inl e ↦ (e, of_some _ t (ap (λ b. if b then some (new_address url) else none) (sym e) ∙ h))
  | inr e ↦ absurd (none-some t (ap (λ b. if b then some (new_address url) else none) (sym e) ∙ h))
]

-- The redirect of an address that starts with /api, where the first segment goes on with other
-- characters, is to the same address.
unfoldable pub Loops : Text → Text → Type 0
Loops url t = (t ≡ url) × (rest : Text) × (url ≡ codes "/api" ++ rest) × (ends_segment rest ≡ false)

-- A client that follows a redirect is redirected at most once more and then reaches the routes, unless
-- the text after /api in the address does not begin with a slash or a question mark; then it is sent
-- to the address it came from.
pub legacy_redirect-Settles :
    (url t : Text) → legacy_redirect url ≡ some t → Loops url t ⊎ Settles t
unfolding Loops
legacy_redirect-Settles url t h =
    let (legacy, q) = target url t h in
    let (rest, split) = is_legacy-split url legacy in
    let new = ap new_address (sym split) ∙ q in
    let by_case = sym (new_address-api rest) ∙ new in
    elim (Bool-cases (ends_segment rest)) [
      | inl e ↦
          let v1 =
            ap (λ b. if b then codes "/api/v1" ++ rest else codes "/api" ++ rest) (sym e)
            ∙ by_case in
          inr (subst Settles v1 (v1-Settles rest e))
      | inr e ↦
          let same =
            ap (λ b. if b then codes "/api/v1" ++ rest else codes "/api" ++ rest) (sym e)
            ∙ by_case in
          inl (sym same ∙ sym split, rest, split, e)
    ]
