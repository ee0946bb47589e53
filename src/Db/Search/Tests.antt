-- ===== src/Db/Search/Tests.antt =====
-- Runs of the text search of indexer/src/db.js.
use pero_j.Base.{ℕ, true, false, List, [], ◌∷◌, ◌≡◌, refl}
use pero_j.Db.Search.{
  double_backslashes, escape_wildcards, escape_like_pattern, search_pattern, any_suffix, is_end,
  like_same, like_one, like, begins_with, contains, is_word_safe, all_word_safe, is_word, is_space,
}
use pero_j.Db.Search.Literal.{search_pattern-contains}

program : Unit {0}
unfolding double_backslashes escape_wildcards escape_like_pattern search_pattern any_suffix is_end
    like_same like_one like begins_with contains is_word_safe all_word_safe is_word is_space
program = tt

abbrev exact : ℕ → ℕ
exact c = c

-- `50%` against `is 50%` and against `is 505`
abbrev fifty_percent : List ℕ
fifty_percent = 53 ∷ 48 ∷ 37 ∷ []

found : like exact (search_pattern fifty_percent) (105 ∷ 115 ∷ 32 ∷ 53 ∷ 48 ∷ 37 ∷ []) ≡ true
unfolding program
found = refl

not_found : like exact (search_pattern fifty_percent) (105 ∷ 115 ∷ 32 ∷ 53 ∷ 48 ∷ 53 ∷ []) ≡ false
unfolding program
not_found = refl

escaped : escape_like_pattern (92 ∷ 95 ∷ 91 ∷ []) ≡ 92 ∷ 92 ∷ 92 ∷ 95 ∷ 92 ∷ 91 ∷ []
unfolding program
escaped = refl

word_safe : is_word_safe (115 ∷ 119 ∷ 32 ∷ 55 ∷ []) ≡ true
unfolding program
word_safe = refl

not_word_safe : is_word_safe fifty_percent ≡ false
unfolding program
not_word_safe = refl

search_pattern-contains_example :
    like exact (search_pattern fifty_percent) (120 ∷ 53 ∷ 48 ∷ 37 ∷ [])
    ≡ contains exact fifty_percent (120 ∷ 53 ∷ 48 ∷ 37 ∷ [])
search_pattern-contains_example =
    search_pattern-contains exact fifty_percent (120 ∷ 53 ∷ 48 ∷ 37 ∷ [])
