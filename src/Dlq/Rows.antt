-- ===== src/Dlq/Rows.antt =====
-- What one retry of indexer/src/dlq-worker.js does to the table and the counts.
use native.Mathlib.Decide.{ℕ_discrete}
use pero_j.Base.{
  sym, ◌∙◌, ℕ, ◌+◌, ◌*◌, ◌^◌, ◌≤◌, ◌<◌, ◌≡◌, ◌≢◌, refl, true, false, Option, none, some, inl, inr,
  arith, Option-cases, Bool-cases,
}
use pero_j.Base.Dict.{Dict, lookup, lookup-insert_ne, lookup-insert_self}
use pero_j.Dlq.{
  Thrown, Row, Worker, due, update, retries_after, resolve, postpone, retry_row, is_permanent_error,
  base_backoff_ms,
}

of_some : {A : Type 0} (a b : A) → ◌≡◌ {A = Option A} (some a) (some b) → a ≡ b
of_some a b h = cc

module _ {P : Type 0} where
  lookup-update_ne :
      (j id : ℕ) (f : Row P → Row P) (table : Dict ℕ (Row P))
      → j ≢ id
      → lookup ℕ_discrete j (update id f table) ≡ lookup ℕ_discrete j table
  unfolding update
  lookup-update_ne j id f table h = elim (Option-cases (lookup ℕ_discrete id table)) [
    | inl e ↦ rw (update, e) refl
    | inr (r, e) ↦ rw (update, e) (lookup-insert_ne ℕ_discrete j id (f r) table h)
  ]

  lookup-update_self :
      (id : ℕ) (r : Row P) (f : Row P → Row P) (table : Dict ℕ (Row P))
      → lookup ℕ_discrete id table ≡ some r
      → lookup ℕ_discrete id (update id f table) ≡ some (f r)
  unfolding update
  lookup-update_self id r f table h = rw (update, h) (lookup-insert_self ℕ_discrete id (f r) table)

  -- Before its own back-off is over, and after the last retry or a permanent error, a failed row
  -- is not selected.
  due-postpone :
      (max_retries at now : ℕ) (row : Row P) (err : Thrown)
      → due max_retries now (postpone max_retries at row err row) ≡ true
      → (at + base_backoff_ms * 2 ^ row.retry_count ≤ now)
        × (is_permanent_error err ≡ false)
        × (row.retry_count + 1 < max_retries)
  unfolding due postpone retries_after
  due-postpone max_retries at now row err h = elim (Bool-cases (is_permanent_error err)) [
    | inl e ↦ absurd (ground (arith, e, h))
    | inr e ↦ (ground (arith, e, h), e, ground (arith, e, h))
  ]

  resolved_over :
      (max_retries now : ℕ) (row r : Row P)
      → ◌≡◌ {A = Option (Row P)} (some (resolve row)) (some r)
      → due max_retries now r ≢ true
  unfolding resolve due
  resolved_over max_retries now row r e d = ground arith

  postponed_due :
      (max_retries at now : ℕ) (row r : Row P) (err : Thrown)
      → ◌≡◌ {A = Option (Row P)} (some (postpone max_retries at row err row)) (some r)
      → due max_retries now r ≡ true
      → (is_permanent_error err ≡ false)
        × (r.retry_count ≡ row.retry_count + 1)
        × (row.retry_count + 1 < max_retries)
        × (at + base_backoff_ms * 2 ^ row.retry_count ≤ now)
  unfolding postpone retries_after
  postponed_due max_retries at now row r err e d =
      let same = of_some _ _ e in
      let (x, y, z) = due-postpone max_retries at now row err (rw same d) in
      (y, ground (arith, same, y), z, x)

module _ {W P : Type 0} (dispatch : W → P → W × Option Thrown) (clock : W → ℕ) where
  retry_row_kept :
      (max_retries id j : ℕ) (row : Row P) (v : Worker W P)
      → j ≢ id
      → lookup ℕ_discrete j (retry_row dispatch clock max_retries id row v).table
        ≡ lookup ℕ_discrete j v.table
  unfolding retry_row
  retry_row_kept max_retries id j row v h = elim (Option-cases (dispatch v.world row.payload).1) [
    | inl e ↦ rw (retry_row, e) (lookup-update_ne j id resolve v.table h)
    | inr (err, e) ↦
        let f = postpone max_retries (clock (dispatch v.world row.payload).0) row err in
        rw (retry_row, e) (lookup-update_ne j id f v.table h)
  ]

  retry_row_resolved :
      (max_retries id : ℕ) (row : Row P) (v : Worker W P)
      → lookup ℕ_discrete id v.table ≡ some row
      → (dispatch v.world row.payload).1 ≡ none
      → lookup ℕ_discrete id (retry_row dispatch clock max_retries id row v).table
        ≡ some (resolve row)
  unfolding retry_row
  retry_row_resolved max_retries id row v h e =
      rw (retry_row, e) (lookup-update_self id row resolve v.table h)

  retry_row_postponed :
      (max_retries id : ℕ) (row : Row P) (err : Thrown) (v : Worker W P)
      → lookup ℕ_discrete id v.table ≡ some row
      → (dispatch v.world row.payload).1 ≡ some err
      → lookup ℕ_discrete id (retry_row dispatch clock max_retries id row v).table
        ≡ some (postpone max_retries (clock (dispatch v.world row.payload).0) row err row)
  unfolding retry_row
  retry_row_postponed max_retries id row err v h e =
      let f = postpone max_retries (clock (dispatch v.world row.payload).0) row err in
      rw (retry_row, e) (lookup-update_self id row f v.table h)

  -- Trying a row leaves every other row as it is. If the row is due again at some later moment,
  -- then its dispatch failed, with an error that is not permanent, its count is one higher and
  -- still below the limit, and since the failure 30 seconds times 2 to the old count have passed.
  pub retry_row_again :
      (max_retries id now : ℕ) (row r : Row P) (v : Worker W P)
      → lookup ℕ_discrete id v.table ≡ some row
      → lookup ℕ_discrete id (retry_row dispatch clock max_retries id row v).table ≡ some r
      → due max_retries now r ≡ true
      → ((err : Thrown) × ((dispatch v.world row.payload).1 ≡ some err)
          × (is_permanent_error err ≡ false)
          × (r.retry_count ≡ row.retry_count + 1)
          × (row.retry_count + 1 < max_retries)
          × (clock (dispatch v.world row.payload).0 + base_backoff_ms * 2 ^ row.retry_count ≤ now))
        × ((j : ℕ)
            → j ≢ id
            → lookup ℕ_discrete j (retry_row dispatch clock max_retries id row v).table
              ≡ lookup ℕ_discrete j v.table)
  unfolding retry_row
  retry_row_again max_retries id now row r v h k d = (
    elim (Option-cases (dispatch v.world row.payload).1) [
      | inl e ↦ absurd (
          resolved_over max_retries now row r
            (sym (retry_row_resolved max_retries id row v h e) ∙ k) d)
      | inr (err, e) ↦
          let at = clock (dispatch v.world row.payload).0 in
          let a = sym (retry_row_postponed max_retries id row err v h e) ∙ k in
          let (x, y, z, u) = postponed_due max_retries at now row r err a d in (err, e, x, y, z, u)
    ],
    λ j h. retry_row_kept max_retries id j row v h,
  )
