-- ===== src/Db/Search/Literal.antt =====
-- The escaped pattern of indexer/src/db.js searches for the text itself.
use pero_j.Base.Codes.{Text}
use pero_j.Base.{
  ℕ, Bool, true, false, ◌||◌, [], ◌∷◌, ◌++◌, ◌==◌, ◌≡◌, refl, ◌∙◌, ◌⊎◌, inl, inr, arith, Bool-cases,
}
use pero_j.Db.Search.{
  backslash, percent, underscore, bracket, double_backslashes, escape_wildcards,
  escape_like_pattern, search_pattern, any_suffix, is_end, like_same, like_one, like, begins_with,
  contains,
}

module _ (fold : ℕ → ℕ) where
  suffix_end : (s : Text) → any_suffix is_end s ≡ true
  unfolding any_suffix is_end
  suffix_end [] = refl
  suffix_end (c ∷ s) = suffix_end s

  -- An escaped character stands for itself.
  like-backslash :
      (c : ℕ) (pattern s : Text)
      → like fold (backslash ∷ c ∷ pattern) s ≡ like_same fold c (like fold pattern) s
  unfolding like
  like-backslash c pattern s = refl

  like_plain :
      (c d : ℕ) (pattern s : Text)
      → (c == percent) ≡ false
      → (c == underscore) ≡ false
      → (c == backslash) ≡ false
      → like fold (c ∷ d ∷ pattern) s ≡ like_same fold c (like fold (d ∷ pattern)) s
  unfolding like like_one like_same
  like_plain c d pattern [] h k l = rw h (rw l refl)
  like_plain c d pattern (x ∷ s) h k l = rw h (rw l (rw k refl))

  same_ext :
      (c : ℕ) (f g : Text → Bool) (s : Text)
      → ((t : Text) → f t ≡ g t)
      → like_same fold c f s ≡ like_same fold c g s
  unfolding like_same
  same_ext c f g [] h = refl
  same_ext c f g (x ∷ s) h = rw (h s) refl

  suffix_ext :
      (f g : Text → Bool) (s : Text) → ((t : Text) → f t ≡ g t) → any_suffix f s ≡ any_suffix g s
  unfolding any_suffix
  suffix_ext f g [] h = h []
  suffix_ext f g (c ∷ s) h = rw (h (c ∷ s)) (rw (suffix_ext f g s h) refl)

  like_plain_end :
      (c : ℕ) (pattern s : Text)
      → (c == percent) ≡ false
      → (c == underscore) ≡ false
      → (c == backslash) ≡ false
      → like fold (c ∷ (pattern ++ percent ∷ [])) s
        ≡ like_same fold c (like fold (pattern ++ percent ∷ [])) s
  like_plain_end c [] s h k l = like_plain c percent [] s h k l
  like_plain_end c (d ∷ pattern) s h k l = like_plain c d (pattern ++ percent ∷ []) s h k l

  percent_first :
      (pattern s : Text)
      → like fold (percent ∷ (pattern ++ percent ∷ [])) s
        ≡ any_suffix (like fold (pattern ++ percent ∷ [])) s
  unfolding like
  percent_first [] s = refl
  percent_first (d ∷ pattern) s = refl

  -- How one character is escaped.
  unfoldable Escapes : ℕ → Text → Text → Type 0
  Escapes c q escaped =
      (escaped ≡ backslash ∷ c ∷ escape_like_pattern q)
      ⊎ ((escaped ≡ c ∷ escape_like_pattern q)
          × ((c == percent) ≡ false)
          × ((c == underscore) ≡ false)
          × ((c == backslash) ≡ false))

  escape-Escapes : (c : ℕ) (q : Text) → Escapes c q (escape_like_pattern (c ∷ q))
  unfolding Escapes escape_like_pattern double_backslashes escape_wildcards
  escape-Escapes c q = elim (Bool-cases (c == backslash)) [
    | inl e ↦ inl (ground arith)
    | inr e ↦ elim (Bool-cases ((c == bracket) || ((c == percent) || (c == underscore)))) [
      | inl w ↦ inl (rw e (rw w refl))
      | inr w ↦ inr (rw e (rw w refl), ground arith, ground arith, e)
    ]
  ]

  like-escape :
      (q s : Text) → like fold (escape_like_pattern q ++ percent ∷ []) s ≡ begins_with fold q s
  unfolding begins_with Escapes escape_like_pattern double_backslashes escape_wildcards like
  like-escape [] s = suffix_end s
  like-escape (c ∷ q) s = elim (escape-Escapes c q) [
    | inl e ↦ rw e (
        like-backslash c (escape_like_pattern q ++ percent ∷ []) s
        ∙ same_ext c _ _ s (λ t. like-escape q t))
    | inr e ↦ rw e.0 (
        like_plain_end c (escape_like_pattern q) s e.1 e.2 e.3
        ∙ same_ext c _ _ s (λ t. like-escape q t))
  ]

  -- For every text, with wildcards or without, the pattern that a search builds from it matches
  -- exactly the descriptions that contain that text, up to case.
  pub search_pattern-contains : (q s : Text) → like fold (search_pattern q) s ≡ contains fold q s
  unfolding search_pattern contains
  search_pattern-contains q s =
      percent_first (escape_like_pattern q) s ∙ suffix_ext _ _ s (λ t. like-escape q t)
