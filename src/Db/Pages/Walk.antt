-- ===== src/Db/Pages/Walk.antt =====
-- Following `next_cursor` from the first page: indexer/src/db.js, `getMarkets` and `getBets`.
use pero_j.Base.{
  ℕ, zero, suc, ◌+◌, ◌-◌, ◌≤◌, ◌<◌, Bool, true, false, inl, inr, Option, none, some, List, [], ◌∷◌,
  ◌++◌, ◌≡◌, refl, sym, ap, ◌∙◌, subst, arith, ltb, length, take, drop, All, Bool-cases,
  length-drop, append_nil, append_assoc, take_all, take-drop, take-take, length-take,
}
use pero_j.Base.Int.{pos, ltb_ℤ, ◌+ℤ◌, pos-+ℤ}
use pero_j.Db.Order.{
  where_rows, order_by, IsTable, Descends, order_by-where, order_by-Descends, All-order_by,
  where-after,
}
use pero_j.Db.Pages.{selected, close_page, pop, last_row, encode_last, select_page, rows_or_none}

unfoldable pub in_front : {R : Type 0} → List R → Option (List R) → Option (List R)
in_front rows none = none
in_front rows (some rest) = some (rows ++ rest)

-- What a client reads that follows the cursors, if a page without a cursor comes among the first so
-- many pages; `none` if it does not.
unfoldable pub walk :
    {R C : Type 0} → (Option C → List R × Option C) → ℕ → Option C → Option (List R)
walk get zero cursor = none
walk get (suc fuel) cursor =
    let p = get cursor in
    in_front p.0 (elim p.1 [ none ↦ some [] | some c ↦ walk get fuel (some c) ])

module _ {R C : Type 0} (get : Option C → List R × Option C) where
  walk_last :
      (fuel : ℕ) (c : Option C) (z : List R) → get c ≡ (z, none) → walk get (suc fuel) c ≡ some z
  unfolding walk in_front
  walk_last fuel c z e = rw e (ap some (append_nil z))

  walk_next :
      (fuel : ℕ) (c : Option C) (z : List R) (d : C)
      → get c ≡ (z, some d)
      → walk get (suc fuel) c ≡ in_front z (walk get fuel (some d))
  unfolding walk
  walk_next fuel c z d e = rw e refl

module _ {R : Type 0} where
  pub pop-take : (n : ℕ) (z : List R) → n < length z → pop (take (suc n) z) ≡ take n z
  unfolding pop
  pop-take n z h =
      let q : length (take (suc n) z) - 1 ≡ n = omega (arith, length-take (suc n) z) in
      rw q (take-take n z)

  -- A list that is not empty, as its beginning and its last member.
  ends_with :
      (z : List R)
      → 0 < length z
      → (ys : List R) × (l : R) × (z ≡ ys ++ l ∷ []) × (last_row z ≡ some l)
  unfolding last_row
  ends_with [] h = absurd (omega arith)
  ends_with (r ∷ []) h = ([], r, refl, refl)
  ends_with (r ∷ s ∷ z) h =
      let e = ends_with (s ∷ z) (omega arith) in (r ∷ e.0, e.1, ap (λ rest. r ∷ rest) e.2, e.3)

  All_at : (P : R → Type 0) (ys : List R) (l : R) (z : List R) → All P (ys ++ l ∷ z) → P l
  All_at P [] l z h = h.0
  All_at P (y ∷ ys) l z h = All_at P ys l z h.1

module _ {R C : Type 0} (order : R → R → Bool) (cut : R → C → Bool) (encode : R → C) where
  -- The rows and the cursor of one page.
  unfoldable pub get_page : ℕ → List R → Option C → List R × Option C
  get_page n rows cursor =
      close_page order cut encode (pos n)
        (take (n + 1) (order_by order (selected order cut encode cursor rows)))

  -- A page that is neither refused nor offset.
  pub page_lem :
      (n : ℕ) (rows : List R) (cursor : Option C)
      → close_page order cut encode
          (pos n)
          (rows_or_none true (select_page order cut encode (pos n +ℤ pos 1) (pos 0) cursor rows))
        ≡ get_page n rows cursor
  unfolding select_page rows_or_none get_page
  page_lem n rows cursor =
      let e : ltb_ℤ (pos (n + 1)) (pos 0) ≡ false = ground arith in rw (pos-+ℤ n 1) (rw e refl)

  module _ (trans : (a b c : R) → order a b ≡ true → order b c ≡ true → order a c ≡ true)
      (irrefl : (a : R) → order a a ≡ false) (rows : List R) (table : IsTable order rows)
      (P : R → Type 0) (good : All P rows) (exact : (r l : R) → P l → cut r (encode l) ≡ order r l)
      (n : ℕ) (some_rows : 1 ≤ n) where
    where_exact :
        (l : R) (rs : List R)
        → P l
        → where_rows (λ r. cut r (encode l)) rs ≡ where_rows (λ r. order r l) rs
    unfolding where_rows
    where_exact l [] p = refl
    where_exact l (r ∷ rs) p = rw (exact r l p) (rw (where_exact l rs p) refl)

    -- The cursor of a row selects what follows it.
    rest_of :
        (kept : List R) (l : R) (z : List R)
        → order_by order rows ≡ kept ++ l ∷ z
        → order_by order (selected order cut encode (some (encode l)) rows) ≡ z
    unfolding selected
    rest_of kept l z e =
        rw
          (where_exact l rows
            (All_at P kept l z (subst (All P) e (All-order_by order P rows good))))
          (order_by-where order trans (λ r. order r l) rows table
            ∙ ap (where_rows (λ r. order r l)) e
            ∙ where-after order trans irrefl kept l z
                (subst (Descends order) e (order_by-Descends order trans rows table)))

    short_page :
        (z : List R)
        → length z ≤ n
        → close_page order cut encode (pos n) (take (n + 1) z) ≡ (z, none)
    unfolding close_page
    short_page z h = rw (take_all (n + 1) z (omega arith)) (ground arith)

    full_page :
        (z : List R) (l : R)
        → n < length z
        → last_row (take n z) ≡ some l
        → close_page order cut encode (pos n) (take (n + 1) z) ≡ (take n z, some (encode l))
    unfolding close_page encode_last
    full_page z l h e =
        let q : n + 1 ≡ suc n = omega arith in
        rw q (ground (arith, pop-take n z h, length-take (suc n) z, e))

    last_page :
        (z : List R) (cursor : Option C)
        → length z ≤ n
        → order_by order (selected order cut encode cursor rows) ≡ z
        → get_page n rows cursor ≡ (z, none)
    unfolding get_page
    last_page z cursor h c = rw c (short_page z h)

    next_page :
        (z : List R) (l : R) (cursor : Option C)
        → n < length z
        → last_row (take n z) ≡ some l
        → order_by order (selected order cut encode cursor rows) ≡ z
        → get_page n rows cursor ≡ (take n z, some (encode l))
    unfolding get_page
    next_page z l cursor h e c = rw c (full_page z l h e)

    pub walk_rest :
        (fuel : ℕ) (kept z : List R) (cursor : Option C)
        → length z ≤ fuel
        → order_by order rows ≡ kept ++ z
        → order_by order (selected order cut encode cursor rows) ≡ z
        → walk (get_page n rows) (suc fuel) cursor ≡ some z
    unfolding in_front
    walk_rest zero kept z cursor h e c =
        walk_last (get_page n rows) zero cursor z (last_page z cursor (omega arith) c)
    walk_rest (suc fuel) kept z cursor h e c = elim (Bool-cases (ltb n (length z))) [
      | inl more ↦
          let over : n < length z = ground arith in
          let k = ends_with (take n z) (omega (arith, length-take n z (omega arith))) in
          let p = next_page z k.1 cursor over k.3 c in
          let whole : order_by order rows ≡ (kept ++ k.0) ++ k.1 ∷ drop n z =
            e
            ∙ ap (λ y. kept ++ y)
                (sym (take-drop n z)
                  ∙ ap (λ y. y ++ drop n z) k.2
                  ∙ append_assoc k.0 (k.1 ∷ []) (drop n z))
            ∙ sym (append_assoc kept k.0 (k.1 ∷ drop n z)) in
          let i =
            walk_rest fuel (kept ++ take n z) (drop n z) (some (encode k.1))
              (omega (arith, length-drop n z))
              (e
                ∙ ap (λ y. kept ++ y) (sym (take-drop n z))
                ∙ sym (append_assoc kept (take n z) (drop n z)))
              (rest_of (kept ++ k.0) k.1 (drop n z) whole) in
          walk_next (get_page n rows) (suc fuel) cursor (take n z) (encode k.1) p
          ∙ ap (in_front (take n z)) i
          ∙ ap some (take-drop n z)
      | inr last ↦
          walk_last (get_page n rows) (suc fuel) cursor z (last_page z cursor (ground arith) c)
    ]
