-- ===== src/Db/Queue/Tests.antt =====
-- Runs of the dead-letter queue and the pool size of indexer/src/db.js.
use pero_j.Base.{ℕ, true, false, none, some, [], ◌≡◌, refl}
use pero_j.Base.Int.{pos}
use pero_j.Base.Codes.{codes}
use pero_j.Base.Decimal.{print_before, print_ℕ}
use pero_j.Db.Queue.{
  Serial, DlqEvent, append_row, insert_dlq_event, or_zero, retried, update_retried, retry_dlq_event,
  set_cursor, get_cursor, digits_after, parse_int, default_size, get_pool_size, get_pool_metrics,
}

program : Unit {0}
unfolding codes print_before print_ℕ append_row insert_dlq_event or_zero retried update_retried
    retry_dlq_event set_cursor get_cursor digits_after parse_int default_size get_pool_size
    get_pool_metrics
program = tt

abbrev empty_queue : Serial DlqEvent
empty_queue = record { rows = []; next_id = 4 }

abbrev queued : ℕ × Serial DlqEvent
queued = insert_dlq_event 100 (some 8) none none none none empty_queue

retry_counts :
    (retry_dlq_event 200 4 (retry_dlq_event 150 4 queued.1).1).0
    ≡ some (record {
      id = 4;
      ledger_sequence = some 8;
      tx_hash = none;
      topic = none;
      payload = none;
      error_message = none;
      retry_count = some 2;
      created_at = 200;
    })
unfolding program
retry_counts = refl

cursor : get_cursor (set_cursor 51234567 none) ≡ some 51234567
unfolding program
cursor = refl

corrupt_cursor : get_cursor (some (codes "x1")) ≡ none
unfolding program
corrupt_cursor = refl

pool_of_backend : get_pool_size true none "backend" ≡ 25
unfolding program
pool_of_backend = refl

pool_too_large : get_pool_size false (some (pos 101)) "backend" ≡ 20
unfolding program
pool_too_large = refl

exhausted : (get_pool_metrics 10 10 0 3).is_healthy ≡ false
unfolding program
exhausted = refl
