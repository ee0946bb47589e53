-- ===== src/Db/Order.antt =====
-- `ORDER BY … DESC`, as an insertion sort by a comparison of rows, and how it commutes with `WHERE`.
use pero_j.Base.{
  suc, length, Bool, true, false, List, [], ◌∷◌, ◌++◌, ◌≡◌, refl, ap, arith, if◌then◌else◌, All,
  Bool-cases, inl, inr, ◌⊎◌, ◌∙◌,
}

unfoldable pub where_rows : {R : Type 0} → (R → Bool) → List R → List R
where_rows p [] = []
where_rows p (r ∷ rows) = let rest = where_rows p rows in if p r then r ∷ rest else rest

-- What every row has, the rows that are selected have, and each of those meets the condition.
pub All-where :
    {R : Type 0} (P : R → Type 0) (p : R → Bool) (rows : List R)
    → All P rows
    → All P (where_rows p rows)
unfolding where_rows
All-where P p [] h = tt
All-where P p (r ∷ rows) h = ground (arith, All-where P p rows h.1)

pub where-All :
    {R : Type 0} (p : R → Bool) (rows : List R) → All (λ r. p r ≡ true) (where_rows p rows)
unfolding where_rows
where-All p [] = tt
where-All p (r ∷ rows) = elim (Bool-cases (p r)) [
  | inl e ↦ rw e (e, where-All p rows)
  | inr e ↦ rw e (where-All p rows)
]

module _ {R : Type 0} (before : R → R → Bool) where
  unfoldable pub place : R → List R → List R
  place r [] = r ∷ []
  place r (s ∷ rows) = let rest = place r rows in if before r s then s ∷ rest else r ∷ s ∷ rows

  unfoldable pub order_by : List R → List R
  order_by [] = []
  order_by (r ∷ rows) = place r (order_by rows)

  length-place : (r : R) (rows : List R) → length (place r rows) ≡ suc (length rows)
  unfolding place
  length-place r [] = refl
  length-place r (s ∷ rows) = ground (arith, length-place r rows)

  pub length-order_by : (rows : List R) → length (order_by rows) ≡ length rows
  unfolding order_by
  length-order_by [] = refl
  length-order_by (r ∷ rows) = length-place r (order_by rows) ∙ ap suc (length-order_by rows)

  -- Every row stands before each that follows it in the other direction.
  unfoldable pub Descends : List R → Type 0
  Descends [] = Unit
  Descends (r ∷ rows) = All (λ s. before s r ≡ true) rows × Descends rows

  -- Any two rows compare.
  unfoldable pub IsTable : List R → Type 0
  IsTable [] = Unit
  IsTable (r ∷ rows) = All (λ s. (before s r ≡ true) ⊎ (before r s ≡ true)) rows × IsTable rows

  All-place : (P : R → Type 0) (r : R) (rows : List R) → P r → All P rows → All P (place r rows)
  unfolding place
  All-place P r [] h k = (h, tt)
  All-place P r (s ∷ rows) h k = elim (Bool-cases (before r s)) [
    | inl e ↦ rw e (k.0, All-place P r rows h k.1)
    | inr e ↦ rw e (h, k)
  ]

  pub All-order_by : (P : R → Type 0) (rows : List R) → All P rows → All P (order_by rows)
  unfolding order_by
  All-order_by P [] h = tt
  All-order_by P (r ∷ rows) h = All-place P r (order_by rows) h.0 (All-order_by P rows h.1)

  module _ (trans : (a b c : R) → before a b ≡ true → before b c ≡ true → before a c ≡ true) where
    below :
        (a b : R) (rows : List R)
        → before a b ≡ true
        → All (λ s. before s a ≡ true) rows
        → All (λ s. before s b ≡ true) rows
    below a b [] h k = tt
    below a b (s ∷ rows) h k = (trans s a b k.0 h, below a b rows h k.1)

    place-Descends :
        (r : R) (rows : List R)
        → All (λ s. (before s r ≡ true) ⊎ (before r s ≡ true)) rows
        → Descends rows
        → Descends (place r rows)
    unfolding place Descends
    place-Descends r [] h k = (tt, tt)
    place-Descends r (s ∷ rows) h k = elim (Bool-cases (before r s)) [
      | inl e ↦
          rw e (All-place (λ t. before t s ≡ true) r rows e k.0, place-Descends r rows h.1 k.1)
      | inr e ↦
          rw e (elim h.0 [ inl l ↦ (l, below s r rows l k.0) | inr g ↦ absurd (ground arith) ], k)
    ]

    pub order_by-Descends : (rows : List R) → IsTable rows → Descends (order_by rows)
    unfolding order_by IsTable Descends
    order_by-Descends [] h = tt
    order_by-Descends (r ∷ rows) h =
        place-Descends r (order_by rows) (All-order_by _ rows h.0) (order_by-Descends rows h.1)

    -- A row that does not stand below `s` does not stand below what follows `s`.
    place_first :
        (p : R → Bool) (r s : R) (rows : List R)
        → before r s ≡ false
        → All (λ t. before t s ≡ true) rows
        → place r (where_rows p rows) ≡ r ∷ where_rows p rows
    unfolding place where_rows
    place_first p r s [] h k = refl
    place_first p r s (t ∷ rows) h k =
        ground (arith, trans r t s, place_first p r s rows h k.1, k.0)

    where-place :
        (p : R → Bool) (r : R) (rows : List R)
        → Descends rows
        → where_rows p (place r rows)
          ≡ (if p r then place r (where_rows p rows) else where_rows p rows)
    unfolding place where_rows Descends
    where-place p r [] h = ground arith
    where-place p r (s ∷ rows) h = ground (arith, where-place p r rows h.1, place_first p r s rows)

    pub order_by-where :
        (p : R → Bool) (rows : List R)
        → IsTable rows
        → order_by (where_rows p rows) ≡ where_rows p (order_by rows)
    unfolding order_by where_rows IsTable
    order_by-where p [] h = refl
    order_by-where p (r ∷ rows) h =
        let i = order_by-where p rows h.1 in
        let w = where-place p r (order_by rows) (order_by-Descends rows h.1) in ground (arith, i, w)

    where_below :
        (l : R) (rows : List R)
        → All (λ s. before s l ≡ true) rows
        → where_rows (λ r. before r l) rows ≡ rows
    unfolding where_rows
    where_below l [] h = refl
    where_below l (r ∷ rows) h = rw h.0 (ap (λ rest. r ∷ rest) (where_below l rows h.1))

    -- What stands below a row of an ordered table is what follows it.
    pub where-after :
        (irrefl : (a : R) → before a a ≡ false) (kept : List R) (l : R) (rest : List R)
        → Descends (kept ++ l ∷ rest)
        → where_rows (λ r. before r l) (kept ++ l ∷ rest) ≡ rest
    unfolding where_rows Descends
    where-after irrefl [] l rest h = rw (irrefl l) (where_below l rest h.0)
    where-after irrefl (k ∷ kept) l rest h =
        let e = in_tail kept in
        let i = where-after irrefl kept l rest h.1 in
        ground (arith, i, irrefl k, trans k l k, e (h.0))
      where
        in_tail :
            (kept : List R) → All (λ s. before s k ≡ true) (kept ++ l ∷ rest) → before l k ≡ true
        in_tail [] a = a.0
        in_tail (x ∷ xs) a = in_tail xs a.1
