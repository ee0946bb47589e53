-- ===== src/Db/Audit/Canonical.antt =====
-- The order in which the headers of a response were given does not reach the bundle of
-- indexer/src/db.js.
use mathlib.Core.List.{Permᴰ}
use pero_j.Base.Codes.{Text}
use pero_j.Base.{
  Bool, true, false, List, [], ◌∷◌, ◌≡◌, refl, ap, ◌∙◌, ◌≢◌, ◌⊎◌, inl, inr, arith, All, subst,
}
use pero_j.Db.Order.{place, order_by, IsTable}
use pero_j.Db.Audit.{text_lt, Header, name_after, sorted_entries}

text_lt_irrefl : (s : Text) → text_lt s s ≡ false
unfolding text_lt
text_lt_irrefl [] = refl
text_lt_irrefl (c ∷ s) = ground (arith, text_lt_irrefl s)

text_lt_trans : (s t u : Text) → text_lt s t ≡ true → text_lt t u ≡ true → text_lt s u ≡ true
unfolding text_lt
text_lt_trans [] t [] h k = ground arith
text_lt_trans [] t (e ∷ u) h k = refl
text_lt_trans (c ∷ s) [] u h k = absurd (cc)
text_lt_trans (c ∷ s) (d ∷ t) [] h k = absurd (cc)
text_lt_trans (c ∷ s) (d ∷ t) (e ∷ u) h k = ground (arith, text_lt_trans s t u)

text_lt_total : (s t : Text) → s ≢ t → (text_lt s t ≡ true) ⊎ (text_lt t s ≡ true)
unfolding text_lt
text_lt_total [] [] h = absurd (h refl)
text_lt_total [] (d ∷ t) h = inl refl
text_lt_total (c ∷ s) [] h = inr refl
text_lt_total (c ∷ s) (d ∷ t) h = ground (arith, text_lt_total s t)

All-perm : {R : Type 0} (P : R → Type 0) {xs ys : List R} → Permᴰ xs ys → All P xs → All P ys
All-perm P Permᴰ.nil h = h
All-perm P (Permᴰ.cons e p) h = (subst P e h.0, All-perm P p h.1)
All-perm P (Permᴰ.swap e f) h = (subst P f h.1.0, (subst P e h.0, h.1.1))
All-perm P (Permᴰ.trans p q) h = All-perm P q (All-perm P p h)

module _ {R : Type 0} (before : R → R → Bool) where
  flipped :
      (a b : R)
      → (before b a ≡ true) ⊎ (before a b ≡ true)
      → (before a b ≡ true) ⊎ (before b a ≡ true)
  flipped a b (inl h) = inr h
  flipped a b (inr h) = inl h

  module _ (irrefl : (a : R) → before a a ≡ false)
      (trans : (a b c : R) → before a b ≡ true → before b c ≡ true → before a c ≡ true) where
    place-place :
        (a b : R) (rows : List R)
        → (before a b ≡ true) ⊎ (before b a ≡ true)
        → place before a (place before b rows) ≡ place before b (place before a rows)
    unfolding place
    place-place a b [] h = ground (arith, irrefl a, trans a b a)
    place-place a b (r ∷ rows) h =
        ground (arith, irrefl a, trans a b a, trans a b r, trans b a r, place-place a b rows h)

    IsTable-perm : {xs ys : List R} → Permᴰ xs ys → IsTable before xs → IsTable before ys
    unfolding IsTable
    IsTable-perm Permᴰ.nil h = h
    IsTable-perm (Permᴰ.cons {l₁ = xs} {l₂ = ys} e p) h = (
      subst (λ r. All (λ s. (before s r ≡ true) ⊎ (before r s ≡ true)) ys) e (All-perm _ p h.0),
      IsTable-perm p h.1,
    )
    IsTable-perm (Permᴰ.swap {a = a} {b = b} {b' = b'} {l = l} e f) h =
        subst (λ r. IsTable before (r ∷ b' ∷ l)) f
          (subst (λ r. IsTable before (b ∷ r ∷ l)) e (((flipped a b h.0.0, h.1.0), (h.0.1, h.1.1))))
    IsTable-perm (Permᴰ.trans p q) h = IsTable-perm q (IsTable-perm p h)

    order_by-perm :
        {xs ys : List R} → Permᴰ xs ys → IsTable before xs → order_by before xs ≡ order_by before ys
    unfolding order_by IsTable
    order_by-perm Permᴰ.nil h = refl
    order_by-perm (Permᴰ.cons {l₁ = xs} {l₂ = ys} e p) h =
        ap (λ r. place before r (order_by before xs)) e ∙ ap (place before _) (order_by-perm p h.1)
    order_by-perm (Permᴰ.swap {a = a} {b = b} {a' = a'} {l = l} e f) h =
        place-place a b (order_by before l) (flipped a b h.0.0)
        ∙ ap (λ r. place before r (place before a (order_by before l))) f
        ∙ ap (λ r. place before a' (place before r (order_by before l))) e
    order_by-perm (Permᴰ.trans p q) h = order_by-perm p h ∙ order_by-perm q (IsTable-perm p h)

-- The names of the entries of an object differ.
unfoldable pub HasNames : List Header → Type 0
HasNames [] = Unit
HasNames (h ∷ hs) = All (λ k. k.0 ≢ h.0) hs × HasNames hs

names_compare :
    (h : Header) (hs : List Header)
    → All (λ k. k.0 ≢ h.0) hs
    → All (λ k. (name_after k h ≡ true) ⊎ (name_after h k ≡ true)) hs
names_compare h [] n = tt
names_compare h (k ∷ hs) n =
    (flipped name_after k h (text_lt_total k.0 h.0 n.0), names_compare h hs n.1)

HasNames-IsTable : (hs : List Header) → HasNames hs → IsTable name_after hs
unfolding HasNames IsTable
HasNames-IsTable [] n = tt
HasNames-IsTable (h ∷ hs) n = (names_compare h hs n.0, HasNames-IsTable hs n.1)

pub sorted_entries_perm :
    (hs ks : List Header) → HasNames hs → Permᴰ hs ks → sorted_entries hs ≡ sorted_entries ks
unfolding sorted_entries
sorted_entries_perm hs ks n p =
    order_by-perm name_after (λ a. text_lt_irrefl a.0) (λ a b c h k. text_lt_trans c.0 b.0 a.0 k h)
      p (HasNames-IsTable hs n)
