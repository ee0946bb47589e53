-- ===== src/Db/Search.antt =====
-- The text search of indexer/src/db.js: `escapeLikePattern` and the pattern that `getEvents` and
-- `getContracts` build with it. A text is the list of its character codes, and PostgreSQL's
-- `ILIKE … ESCAPE '\'` compares characters up to case, which `fold` stands for.
pub mod Literal
mod Tests
use pero_j.Base.Codes.{Text}
use pero_j.Base.{ℕ, Bool, true, false, ◌&&◌, ◌||◌, List, [], ◌∷◌, ◌++◌, ◌==◌, if◌then◌else◌, leb}

-- Codes of the characters that the pattern gives a meaning.
abbrev pub backslash : ℕ
backslash = 92

abbrev pub percent : ℕ
percent = 37

abbrev pub underscore : ℕ
underscore = 95

abbrev pub bracket : ℕ
bracket = 91

-- `.replace(/\\/g, "\\\\")`
unfoldable pub double_backslashes : Text → Text
double_backslashes [] = []
double_backslashes (c ∷ s) =
    let rest = double_backslashes s in
    if c == backslash then backslash ∷ backslash ∷ rest else c ∷ rest

-- `.replace(/[\[%_]/g, "\\$&")`
unfoldable pub escape_wildcards : Text → Text
escape_wildcards [] = []
escape_wildcards (c ∷ s) =
    let rest = escape_wildcards s in
    if (c == bracket) || ((c == percent) || (c == underscore))
    then backslash ∷ c ∷ rest
    else c ∷ rest

unfoldable pub escape_like_pattern : Text → Text
escape_like_pattern s = escape_wildcards (double_backslashes s)

-- `%${escapedQ}%`
unfoldable pub search_pattern : Text → Text
search_pattern q = percent ∷ (escape_like_pattern q ++ percent ∷ [])

abbrev is_between : ℕ → ℕ → ℕ → Bool
is_between low high c = leb low c && leb c high

-- `/^[\w\s]+$/`, with the white space of ASCII, the no-break space and the byte order mark, and the
-- space separators of Unicode.
unfoldable pub is_word : ℕ → Bool
is_word c = is_between 48 57 c || (is_between 65 90 c || (is_between 97 122 c || (c == underscore)))

unfoldable pub is_space : ℕ → Bool
is_space c =
    is_between 9 13 c
    || ((c == 32)
        || ((c == 160)
            || ((c == 5760)
                || (is_between 8192 8202 c
                    || ((c == 8232)
                        || ((c == 8233)
                            || ((c == 8239)
                                || ((c == 8287) || ((c == 12288) || (c == 65279))))))))))

unfoldable pub all_word_safe : Text → Bool
all_word_safe [] = true
all_word_safe (c ∷ s) = (is_word c || is_space c) && all_word_safe s

unfoldable pub is_word_safe : Text → Bool
is_word_safe [] = false
is_word_safe (c ∷ s) = all_word_safe (c ∷ s)

unfoldable pub any_suffix : (Text → Bool) → Text → Bool
any_suffix f [] = f []
any_suffix f (c ∷ s) = f (c ∷ s) || any_suffix f s

-- `text ILIKE pattern ESCAPE '\'`. A pattern that ends in a single backslash is refused by the
-- database; here it matches nothing.
unfoldable pub is_end : Text → Bool
is_end [] = true
is_end (c ∷ s) = false

module _ (fold : ℕ → ℕ) where
  unfoldable pub like_same : ℕ → (Text → Bool) → Text → Bool
  like_same p rest [] = false
  like_same p rest (c ∷ s) = (fold p == fold c) && rest s

  unfoldable pub like_one : ℕ → (Text → Bool) → Text → Bool
  like_one p rest [] = false
  like_one p rest (c ∷ s) = if p == underscore then rest s else (fold p == fold c) && rest s

  unfoldable pub like : Text → Text → Bool
  like [] s = is_end s
  like (p ∷ []) s =
      if p == percent
      then any_suffix is_end s
      else if p == backslash
      then false
      else like_one p is_end s
  like (p ∷ d ∷ pattern) s =
      let rest = like (d ∷ pattern) in
      let after = like pattern in
      if p == percent
      then any_suffix rest s
      else if p == backslash
      then like_same d after s
      else like_one p rest s

  unfoldable pub begins_with : Text → Text → Bool
  begins_with [] s = true
  begins_with (p ∷ q) s = like_same p (begins_with q) s

  -- The text stands somewhere in the other, up to case.
  unfoldable pub contains : Text → Text → Bool
  contains q s = any_suffix (begins_with q) s
