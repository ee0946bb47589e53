-- ===== src/Api/Normal.antt =====
-- What `normalizeSubmissionId` of indexer/src/api.js makes of an id.
use pero_j.Base.{
  ℕ, ◌+◌, ◌-◌, ◌*◌, true, false, Option, none, some, [], ◌∷◌, ◌≡◌, refl, sym, ap, subst, ◌∙◌, inl,
  inr, arith, ◌==◌, Bool-cases,
}
use pero_j.Base.Codes.{Text}
use pero_j.Base.Decimal.{decimal_value, value_after}
use pero_j.Api.{all_digits, strip_zeros, normalize_submission_id}

-- No zero stands before another digit.
unfoldable pub HasNoLeadingZero : Text → Type 0
HasNoLeadingZero [] = ⊥
HasNoLeadingZero (c ∷ []) = Unit
HasNoLeadingZero (c ∷ d ∷ s) = (c == 48) ≡ false

strip-value : (s : Text) → decimal_value (strip_zeros s) ≡ decimal_value s
unfolding decimal_value value_after strip_zeros
strip-value [] = refl
strip-value (c ∷ []) = refl
strip-value (c ∷ d ∷ s) = elim (Bool-cases (c == 48)) [
  | inl e ↦
      let q : (0 * 10 + (c - 48)) * 10 + (d - 48) ≡ 0 * 10 + (d - 48) = ground arith in
      rw e (strip-value (d ∷ s) ∙ ap (λ n. value_after n s) (sym q))
  | inr e ↦ rw e refl
]

strip-HasNoLeadingZero : (c : ℕ) (s : Text) → HasNoLeadingZero (strip_zeros (c ∷ s))
unfolding HasNoLeadingZero strip_zeros
strip-HasNoLeadingZero c [] = tt
strip-HasNoLeadingZero c (d ∷ s) = elim (Bool-cases (c == 48)) [
  | inl e ↦ rw e (strip-HasNoLeadingZero d s)
  | inr e ↦ rw e e
]

strip-all_digits : (s : Text) → all_digits s ≡ true → all_digits (strip_zeros s) ≡ true
unfolding all_digits strip_zeros
strip-all_digits [] h = refl
strip-all_digits (c ∷ []) h = h
strip-all_digits (c ∷ d ∷ s) h = elim (Bool-cases (c == 48)) [
  | inl e ↦ rw e (strip-all_digits (d ∷ s) (ground arith))
  | inr e ↦ rw e h
]

of_some : (a b : Text) → ◌≡◌ {A = Option Text} (some a) (some b) → a ≡ b
of_some a b h = cc

none-some : (t : Text) → ◌≡◌ {A = Option Text} none (some t) → ⊥
none-some t h = cc

accepted :
    (c : ℕ) (s : Text)
    → all_digits (c ∷ s) ≡ true
    → normalize_submission_id (c ∷ s) ≡ some (strip_zeros (c ∷ s))
unfolding normalize_submission_id
accepted c s e = rw e refl

refused : (c : ℕ) (s : Text) → all_digits (c ∷ s) ≡ false → normalize_submission_id (c ∷ s) ≡ none
unfolding normalize_submission_id
refused c s e = rw e refl

-- A normal form stays as it is.
normal : (t : Text) → HasNoLeadingZero t → all_digits t ≡ true → normalize_submission_id t ≡ some t
unfolding HasNoLeadingZero strip_zeros
normal [] z a = absurd z
normal (c ∷ []) z a = accepted c [] a
normal (c ∷ d ∷ s) z a = accepted c (d ∷ s) a ∙ rw z refl

-- An id that is accepted is digits, and its normal form is digits of the same value with no zero
-- before another digit; so every spelling of a number leads to a text that is read as that number.
-- Normalising a normal form changes nothing.
pub normalize_submission_id-value :
    (s t : Text)
    → normalize_submission_id s ≡ some t
    → (decimal_value t ≡ decimal_value s)
      × HasNoLeadingZero t
      × (all_digits s ≡ true)
      × (normalize_submission_id t ≡ some t)
unfolding normalize_submission_id
normalize_submission_id-value [] t h = absurd (cc)
normalize_submission_id-value (c ∷ s) t h = elim (Bool-cases (all_digits (c ∷ s))) [
  | inl e ↦
      let q = of_some _ t (sym (accepted c s e) ∙ h) in
      let z = subst HasNoLeadingZero q (strip-HasNoLeadingZero c s) in
      let a = subst (λ x. all_digits x ≡ true) q (strip-all_digits (c ∷ s) e) in
      (ap decimal_value (sym q) ∙ strip-value (c ∷ s), z, e, normal t z a)
  | inr e ↦ absurd (none-some t (sym (refused c s e) ∙ h))
]
