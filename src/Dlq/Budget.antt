-- ===== src/Dlq/Budget.antt =====
-- How often indexer/src/dlq-worker.js dispatches a row.
use native.Mathlib.Decide.{ℕ_discrete}
use pero_j.Base.{ℕ, suc, ◌+◌, Option, none, some, List, [], ◌∷◌, if◌then◌else◌, take, ◌==◌, ◌++◌}
use pero_j.Base.Dict.{Dict, lookup}
use pero_j.Dlq.{Thrown, Row, Stats, due_rows, retry_dlq_batch, batch_size}
use pero_j.Dlq.Attempts.{left}

-- The dispatches that the row of an id has left.
unfoldable pub left_of : {P : Type 0} → ℕ → Option (Row P) → ℕ
left_of max_retries none = 0
left_of max_retries (some r) = left max_retries r

unfoldable pub left_at : {P : Type 0} → ℕ → ℕ → Dict ℕ (Row P) → ℕ
left_at max_retries id table = left_of max_retries (lookup ℕ_discrete id table)

unfoldable pub ids_of : {P : Type 0} → Dict ℕ (Row P) → List ℕ
ids_of [] = []
ids_of ((id, r) ∷ rows) = id ∷ ids_of rows

unfoldable pub times : ℕ → List ℕ → ℕ
times id [] = 0
times id (j ∷ ids) = let rest = times id ids in if j == id then suc rest else rest

unfoldable pub dispatched : Stats → ℕ
dispatched s = s.resolved + s.failed

module _ {W P : Type 0} (dispatch : W → P → W × Option Thrown) (clock : W → ℕ) where
  -- The rows that a batch takes: the first fifty that are due.
  unfoldable pub batch_ids : ℕ → W → Dict ℕ (Row P) → List ℕ
  batch_ids max_retries w table = ids_of (take batch_size (due_rows max_retries (clock w) table))

  -- A batch, and then later ones, at worlds that anything may have changed in between: how many
  -- dispatches were counted, the rows that were taken, in order, and the table.
  unfoldable pub run : ℕ → List W → Dict ℕ (Row P) → ℕ × List ℕ × Dict ℕ (Row P)
  run max_retries [] table = (0, [], table)
  run max_retries (w ∷ ws) table =
      let v = retry_dlq_batch dispatch clock max_retries w table in
      let rest = run max_retries ws v.table in
      (dispatched v.stats + rest.0, batch_ids max_retries w table ++ rest.1, rest.2)
