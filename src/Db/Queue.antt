-- ===== src/Db/Queue.antt =====
-- The rest of indexer/src/db.js: oracle disputes, the dead-letter queue, the indexer's cursor, the
-- statistics and the size of the connection pool. `now` is the clock of the database.
pub mod Resumed
mod Tests
use Prim.Native.String.{String}
use text.Mathlib.Text.{◌==◌ as str_eq}
use pero_j.Base.{
  ℕ, suc, ◌+◌, ◌-◌, ◌*◌, Bool, true, false, not, ◌&&◌, ◌||◌, Option, none, some, List, [], ◌∷◌,
  ◌++◌, ltb, leb, ◌==◌, if◌then◌else◌, length,
}
use pero_j.Base.Int.{ℤ, pos, negsuc, leb_ℤ, pos_part}
use pero_j.Base.Text.{is_empty}
use pero_j.Base.Codes.{Text}
use pero_j.Base.Decimal.{print_ℕ, value_after}
use pero_j.Db.Events.{StoredEvent}

pub record DisputeRow : Type 0 where
  pub id : ℕ
  pub submission_id : ℕ
  pub market_id : Text
  pub disputer : Text
  pub reason : Option Text
  pub ledger : ℕ
  pub tx_hash : Option Text

-- A table with the next id of its sequence.
pub record Serial (R : Type 0) : Type 0 where
  pub rows : List R
  pub next_id : ℕ

unfoldable pub append_row : {R : Type 0} → (ℕ → R) → Serial R → ℕ × Serial R
append_row row table = (
  table.next_id,
  record { rows = table.rows ++ row table.next_id ∷ []; next_id = suc table.next_id },
)

unfoldable pub insert_oracle_dispute :
    (submission : ℕ) (market disputer : Text) (reason : Option Text) (ledger : ℕ)
    (tx_hash : Option Text)
    → Serial DisputeRow
    → ℕ × Serial DisputeRow
insert_oracle_dispute submission market disputer reason ledger tx_hash = append_row (λ id. record {
  id = id;
  submission_id = submission;
  market_id = market;
  disputer = disputer;
  reason = reason;
  ledger = ledger;
  tx_hash = tx_hash;
})

-- The payload is a JSON decimal_value, kept as its text.
pub record DlqEvent : Type 0 where
  pub id : ℕ
  pub ledger_sequence : Option ℕ
  pub tx_hash : Option Text
  pub topic : Option Text
  pub payload : Option Text
  pub error_message : Option Text
  pub retry_count : Option ℕ
  pub created_at : ℕ

unfoldable pub insert_dlq_event :
    (now : ℕ) (ledger_sequence : Option ℕ) (tx_hash topic payload error_message : Option Text)
    → Serial DlqEvent
    → ℕ × Serial DlqEvent
insert_dlq_event now ledger_sequence tx_hash topic payload error_message = append_row (λ id.
    record {
      id = id;
      ledger_sequence = ledger_sequence;
      tx_hash = tx_hash;
      topic = topic;
      payload = payload;
      error_message = error_message;
      retry_count = some 0;
      created_at = now;
    })

unfoldable pub or_zero : Option ℕ → ℕ
or_zero none = 0
or_zero (some n) = n

unfoldable pub retried : ℕ → DlqEvent → DlqEvent
retried now e = record {
  id = e.id;
  ledger_sequence = e.ledger_sequence;
  tx_hash = e.tx_hash;
  topic = e.topic;
  payload = e.payload;
  error_message = e.error_message;
  retry_count = some (or_zero e.retry_count + 1);
  created_at = now;
}

-- With the row that was updated, if there is one.
unfoldable pub update_retried : ℕ → ℕ → List DlqEvent → Option DlqEvent × List DlqEvent
update_retried now id [] = (none, [])
update_retried now id (e ∷ rows) =
    let rest = update_retried now id rows in
    if e.id == id then (some (retried now e), retried now e ∷ rows) else (rest.0, e ∷ rest.1)

unfoldable pub retry_dlq_event : ℕ → ℕ → Serial DlqEvent → Option DlqEvent × Serial DlqEvent
retry_dlq_event now id table =
    let r = update_retried now id table.rows in
    (r.0, record { rows = r.1; next_id = table.next_id })

-- The row `last_ledger` of `indexer_state`.
unfoldable pub set_cursor : ℕ → Option Text → Option Text
set_cursor ledger state = some (print_ℕ ledger)

abbrev is_digit : ℕ → Bool
is_digit c = leb 48 c && leb c 57

-- `parseInt(text, 10)` of a text that starts with a digit; any other text here is not a number.
unfoldable pub digits_after : ℕ → Text → ℕ
digits_after n [] = n
digits_after n (c ∷ s) =
    let rest = digits_after (n * 10 + (c - 48)) s in if is_digit c then rest else n

unfoldable pub parse_int : Text → Option ℕ
parse_int [] = none
parse_int (c ∷ s) = if is_digit c then some (digits_after 0 (c ∷ s)) else none

unfoldable pub get_cursor : Option Text → Option ℕ
get_cursor none = none
get_cursor (some text) = parse_int text

pub record Stats : Type 0 where
  pub total_events : ℕ
  pub total_contracts : ℕ
  pub unique_addresses : ℕ

unfoldable pub holds : String → List String → Bool
holds a [] = false
holds a (b ∷ bs) = str_eq a b || holds a bs

unfoldable pub distinct : List String → List String
distinct [] = []
distinct (a ∷ others) = let rest = distinct others in if holds a rest then rest else a ∷ rest

unfoldable pub all_addresses : List StoredEvent → List String
all_addresses [] = []
all_addresses (e ∷ events) = e.row.event_addresses ++ all_addresses events

unfoldable pub get_stats : {C : Type 0} → List StoredEvent → List C → Stats
get_stats events contracts = record {
  total_events = length events;
  total_contracts = length contracts;
  unique_addresses = length (distinct (all_addresses events));
}

abbrev pub default_pool_size : ℕ
default_pool_size = 20

unfoldable pub default_size : String → ℕ
default_size service =
    if str_eq service "backend"
    then 25
    else if str_eq service "indexer"
    then 10
    else default_pool_size

-- `blank`: the variable is absent or has no text but white space; otherwise it is read as a number,
-- `none` where that is not an integer.
unfoldable pub get_pool_size : (blank : Bool) → Option ℤ → String → ℕ
get_pool_size true parsed service = default_size service
get_pool_size false none service = default_pool_size
get_pool_size false (some n) service =
    if leb_ℤ (pos 1) n && leb_ℤ n (pos 100) then pos_part n else default_pool_size

pub record PoolMetrics : Type 0 where
  pub total_count : ℕ
  pub idle_count : ℕ
  pub waiting_count : ℕ
  pub max : ℕ
  pub is_healthy : Bool

unfoldable pub get_pool_metrics : (size total idle waiting : ℕ) → PoolMetrics
get_pool_metrics size total idle waiting = record {
  total_count = total;
  idle_count = idle;
  waiting_count = waiting;
  max = size;
  is_healthy = not (ltb 0 waiting && leb size total);
}
