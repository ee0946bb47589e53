-- ===== src/Dlq.antt =====
-- The retries of the dead letter queue: indexer/src/dlq-worker.js. The table is kept in the order
-- of its ids, which grow, and an UPDATE keeps a row's place. A query that throws is not modelled.
-- The dispatcher, and the clock that NOW() reads, are parameters on a state of their own.
pub mod Attempts
pub mod Budget
pub mod Rows
mod Tests
use Prim.Native.String.{String}
use native.Mathlib.Decide.{ℕ_discrete}
use text.Mathlib.Text.{starts_with}
use pero_j.Base.{
  ℕ, ◌+◌, ◌*◌, ◌^◌, Bool, true, false, not, ◌&&◌, ◌||◌, Option, none, some, List, [], ◌∷◌,
  if◌then◌else◌, ltb, leb, take,
}
use pero_j.Base.Dict.{Dict, lookup, insert}

abbrev pub default_max_retries : ℕ
default_max_retries = 5

abbrev pub base_backoff_ms : ℕ
base_backoff_ms = 30000

abbrev pub batch_size : ℕ
batch_size = 50

pub data ErrorKind : Type 0 where
  syntax_error type_error other : ErrorKind

-- What a dispatch throws. `code` is `String(err?.code ?? '')`.
pub record Thrown : Type 0 where
  pub code : String
  pub kind : ErrorKind
  pub message : String
  pub stack : Option String

pub is_permanent_kind : ErrorKind → Bool
is_permanent_kind syntax_error = true
is_permanent_kind type_error = true
is_permanent_kind other = false

unfoldable pub is_permanent_error : Thrown → Bool
unfolding is_permanent_kind
is_permanent_error err =
    (starts_with err.code "22" || starts_with err.code "23" || starts_with err.code "42")
    || is_permanent_kind err.kind

pub record Row (P : Type 0) : Type 0 where
  pub payload : P
  pub retry_count : ℕ
  pub next_retry_at : ℕ
  pub resolved : Bool
  pub error : Option String
  pub stack : Option String

pub record Stats : Type 0 where
  pub resolved : ℕ
  pub failed : ℕ
  pub exhausted : ℕ

abbrev pub no_stats : Stats
no_stats = record { resolved = 0; failed = 0; exhausted = 0 }

-- The world that the dispatcher acts on, the table, and the counts.
pub record Worker (W P : Type 0) : Type 0 where
  pub world : W
  pub table : Dict ℕ (Row P)
  pub stats : Stats

-- The WHERE clause of the SELECT.
unfoldable pub due : {P : Type 0} → ℕ → ℕ → Row P → Bool
due max_retries now r = not r.resolved && (ltb r.retry_count max_retries && leb r.next_retry_at now)

unfoldable pub due_rows : {P : Type 0} → ℕ → ℕ → Dict ℕ (Row P) → Dict ℕ (Row P)
due_rows max_retries now [] = []
due_rows max_retries now ((id, r) ∷ rows) =
    let rest = due_rows max_retries now rows in
    if due max_retries now r then (id, r) ∷ rest else rest

-- UPDATE ... WHERE id = $1
unfoldable pub update : {P : Type 0} → ℕ → (Row P → Row P) → Dict ℕ (Row P) → Dict ℕ (Row P)
update id set table = elim (lookup ℕ_discrete id table) [
  | none ↦ table
  | some r ↦ insert ℕ_discrete id (set r) table
]

-- `retries` of the catch block.
unfoldable pub retries_after : {P : Type 0} → ℕ → Row P → Thrown → ℕ
retries_after max_retries row err =
    if is_permanent_error err then max_retries else row.retry_count + 1

unfoldable pub resolve : {P : Type 0} → Row P → Row P
resolve r = record r { resolved = true }

-- The UPDATE of the catch block: `row` is the row as it was selected.
unfoldable pub postpone : {P : Type 0} → ℕ → ℕ → Row P → Thrown → Row P → Row P
postpone max_retries now row err r = record r {
  retry_count = retries_after max_retries row err;
  error = some err.message;
  stack = err.stack;
  next_retry_at = now + base_backoff_ms * 2 ^ row.retry_count;
}

unfoldable pub count_failure : Bool → Stats → Stats
count_failure spent s = record s {
  failed = s.failed + 1;
  exhausted = if spent then s.exhausted + 1 else s.exhausted;
}

unfoldable pub count_success : Stats → Stats
count_success s = record s { resolved = s.resolved + 1 }

module _ {W P : Type 0} (dispatch : W → P → W × Option Thrown) (clock : W → ℕ) where
  -- The loop's body for one row.
  unfoldable pub retry_row : ℕ → ℕ → Row P → Worker W P → Worker W P
  retry_row max_retries id row v =
      let (w, result) = dispatch v.world row.payload in
      elim result [
        | none ↦ record {
          world = w;
          table = update id resolve v.table;
          stats = count_success v.stats;
        }
        | some err ↦ record {
          world = w;
          table = update id (postpone max_retries (clock w) row err) v.table;
          stats = count_failure (leb max_retries (retries_after max_retries row err)) v.stats;
        }
      ]

  unfoldable pub retry_rows : ℕ → Dict ℕ (Row P) → Worker W P → Worker W P
  retry_rows max_retries [] v = v
  retry_rows max_retries ((id, row) ∷ rows) v =
      retry_rows max_retries rows (retry_row max_retries id row v)

  unfoldable pub retry_dlq_batch : ℕ → W → Dict ℕ (Row P) → Worker W P
  retry_dlq_batch max_retries w table =
      retry_rows max_retries (take batch_size (due_rows max_retries (clock w) table))
        (record { world = w; table = table; stats = no_stats })
