-- ===== src/Dlq/Attempts.antt =====
-- What a row of indexer/src/dlq-worker.js has left, and which rows a batch selects.
use native.Mathlib.Decide.{ℕ_discrete}
use pero_j.Base.{
  ℕ, zero, suc, ◌+◌, ◌-◌, ◌≤◌, ◌≡◌, refl, true, none, some, [], ◌∷◌, inl, inr, if◌then◌else◌, take,
  Bool-cases, All, arith,
}
use pero_j.Base.Dict.{Dict, lookup, insert, IsUnique, lookup-insert_ne}
use pero_j.Dlq.{Thrown, Row, due, due_rows, retries_after, resolve, postpone}

-- The dispatches that a row has left.
unfoldable pub left : {P : Type 0} → ℕ → Row P → ℕ
left max_retries r = if r.resolved then 0 else max_retries - r.retry_count

unfoldable pub budget : {P : Type 0} → ℕ → Dict ℕ (Row P) → ℕ
budget max_retries [] = 0
budget max_retries ((id, r) ∷ rows) = left max_retries r + budget max_retries rows

module _ {P : Type 0} (max_retries : ℕ) where
  pub budget-insert :
      (id : ℕ) (r s : Row P) (table : Dict ℕ (Row P))
      → lookup ℕ_discrete id table ≡ some r
      → budget max_retries (insert ℕ_discrete id s table) + left max_retries r
        ≡ budget max_retries table + left max_retries s
  unfolding budget
  budget-insert id r s [] h = absurd (cc)
  budget-insert id r s ((j, t) ∷ table) h = ground (arith, budget-insert id r s table)

  pub left-resolve :
      (now : ℕ) (r : Row P)
      → due max_retries now r ≡ true
      → left max_retries (resolve r) + 1 ≤ left max_retries r
  unfolding left resolve due
  left-resolve now r h = ground arith

  pub left-postpone :
      (now at : ℕ) (r : Row P) (err : Thrown)
      → due max_retries now r ≡ true
      → left max_retries (postpone max_retries at r err r) + 1 ≤ left max_retries r
  unfolding left postpone due retries_after
  left-postpone now at r err h = ground arith

  -- The rows stand in the table, as they were selected, and are still due.
  unfoldable pub Selected : ℕ → Dict ℕ (Row P) → Dict ℕ (Row P) → Type 0
  Selected now rows table =
      All (λ e. (lookup ℕ_discrete e.0 table ≡ some e.1) × (due max_retries now e.1 ≡ true)) rows

  pub Selected-insert :
      (now id : ℕ) (s : Row P) (rows table : Dict ℕ (Row P))
      → lookup ℕ_discrete id rows ≡ none
      → Selected now rows table
      → Selected now rows (insert ℕ_discrete id s table)
  unfolding Selected
  Selected-insert now id s [] table h k = tt
  Selected-insert now id s ((j, r) ∷ rows) table h k =
      ground (arith, Selected-insert now id s rows table, lookup-insert_ne ℕ_discrete j id s table)

  lookup-due_rows :
      (now id : ℕ) (table : Dict ℕ (Row P))
      → lookup ℕ_discrete id table ≡ none
      → lookup ℕ_discrete id (due_rows max_retries now table) ≡ none
  unfolding due_rows
  lookup-due_rows now id [] h = refl
  lookup-due_rows now id ((j, r) ∷ table) h = ground (arith, lookup-due_rows now id table)

  pub due_rows-IsUnique :
      (now : ℕ) (table : Dict ℕ (Row P))
      → IsUnique ℕ_discrete table
      → IsUnique ℕ_discrete (due_rows max_retries now table)
  unfolding due_rows
  due_rows-IsUnique now [] h = tt
  due_rows-IsUnique now ((j, r) ∷ table) h =
      ground (arith, due_rows-IsUnique now table h.1, lookup-due_rows now j table)

  Selected-more :
      (now id : ℕ) (r : Row P) (rows table : Dict ℕ (Row P))
      → lookup ℕ_discrete id rows ≡ none
      → Selected now rows table
      → Selected now rows ((id, r) ∷ table)
  unfolding Selected
  Selected-more now id r [] table h k = tt
  Selected-more now id r ((j, s) ∷ rows) table h k =
      ground (arith, Selected-more now id r rows table)

  pub due_rows-Selected :
      (now : ℕ) (table : Dict ℕ (Row P))
      → IsUnique ℕ_discrete table
      → Selected now (due_rows max_retries now table) table
  unfolding due_rows Selected
  due_rows-Selected now [] h = tt
  due_rows-Selected now ((j, r) ∷ table) h =
      let a = due_rows-Selected now table h.1 in
      let more =
        Selected-more now j r (due_rows max_retries now table) table
          (lookup-due_rows now j table h.0) a in
      elim (Bool-cases (due max_retries now r)) [
        | inl e ↦ rw e ((ground arith, e), more)
        | inr e ↦ rw e more
      ]

lookup-take :
    {P : Type 0} (n id : ℕ) (rows : Dict ℕ (Row P))
    → lookup ℕ_discrete id rows ≡ none
    → lookup ℕ_discrete id (take n rows) ≡ none
lookup-take zero id rows h = refl
lookup-take (suc n) id [] h = refl
lookup-take (suc n) id ((j, r) ∷ rows) h = ground (arith, lookup-take n id rows)

pub take-IsUnique :
    {P : Type 0} (n : ℕ) (rows : Dict ℕ (Row P))
    → IsUnique ℕ_discrete rows
    → IsUnique ℕ_discrete (take n rows)
take-IsUnique zero rows h = tt
take-IsUnique (suc n) [] h = tt
take-IsUnique (suc n) ((j, r) ∷ rows) h = (lookup-take n j rows h.0, take-IsUnique n rows h.1)

pub take-Selected :
    {P : Type 0} (max_retries now n : ℕ) (rows table : Dict ℕ (Row P))
    → Selected max_retries now rows table
    → Selected max_retries now (take n rows) table
unfolding Selected
take-Selected max_retries now zero rows table h = tt
take-Selected max_retries now (suc n) [] table h = tt
take-Selected max_retries now (suc n) ((j, r) ∷ rows) table h =
    (h.0, take-Selected max_retries now n rows table h.1)
