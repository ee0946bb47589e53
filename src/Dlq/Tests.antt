-- ===== src/Dlq/Tests.antt =====
-- Runs of the retry worker of indexer/src/dlq-worker.js.
use native.Mathlib.Decide.{ℕ_discrete}
use pero_j.Base.{ℕ, ◌≡◌, refl, false, Option, none, some, [], ◌∷◌, if◌then◌else◌, ◌==◌}
use pero_j.Base.Dict.{Dict}
use pero_j.Dlq.{
  Thrown, Row, Worker, due, due_rows, update, retries_after, resolve, postpone, count_failure,
  count_success, retry_row, retry_rows, retry_dlq_batch, is_permanent_error, other, no_stats,
}
use pero_j.Dlq.Attempts.{left, budget}
use pero_j.Dlq.Budget.{dispatched, left_of, left_at, ids_of, times, batch_ids, run}

program : Unit {0}
unfolding due due_rows update retries_after resolve postpone count_failure count_success retry_row
    retry_rows retry_dlq_batch is_permanent_error left budget dispatched left_of left_at ids_of
    times batch_ids run ℕ_discrete
program = tt

-- Payload 7 never gets through, and payload 8 breaks a constraint. The world is the clock.
abbrev dispatch : ℕ → ℕ → ℕ × Option Thrown
dispatch w p =
    if p == 7
    then (w, some (record { code = "ECONNREFUSED"; kind = other; message = "down"; stack = none }))
    else if p == 8
    then (w, some (record { code = "23505"; kind = other; message = "duplicate"; stack = none }))
    else (w, none)

abbrev clock : ℕ → ℕ
clock w = w

abbrev row : ℕ → ℕ → Row ℕ
row payload count = record {
  payload = payload;
  retry_count = count;
  next_retry_at = 0;
  resolved = false;
  error = none;
  stack = none;
}

abbrev table : Dict ℕ (Row ℕ)
table = (1, row 7 1) ∷ (2, row 8 0) ∷ (3, row 9 0) ∷ []

batch_stats :
    (retry_dlq_batch dispatch clock 3 1000 table).stats
    ≡ record { resolved = 1; failed = 2; exhausted = 1 }
unfolding program
batch_stats = refl

run_spent : (run dispatch clock 3 (1000 ∷ 1001 ∷ 100000 ∷ 900000 ∷ []) table).0 ≡ 4
unfolding program
run_spent = refl

abbrev worker : Worker ℕ ℕ
worker = record { world = 1000; table = table; stats = no_stats }

abbrev later : Row ℕ
later = record (row 7 2) { next_retry_at = 61000; error = some "down"; stack = none }
