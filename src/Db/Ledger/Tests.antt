-- ===== src/Db/Ledger/Tests.antt =====
-- Runs of the writing of a ledger in indexer/src/db.js.
use Prim.Native.String.{String}
use pero_j.Base.{
  ℕ, true, none, some, [], ◌∷◌, ◌≡◌, refl, ◌==◌, if◌then◌else◌, length, returned, leb, thrown,
}
use pero_j.Db.Transaction.{
  Answer, answered, refused, Client, query, settle, carry_out, fail, view, then_call,
}
use pero_j.Db.Ledger.{
  DecodedEvent, event_insert_params, or_empty, Checkpoint, Tables, add_event, put_checkpoint,
  insert_event, insert_events, upsert_event, write_ledger, persist_ledger, get_checkpoint, max_safe,
}
use pero_j.Db.Ledger.Atomic.{written, AllOrNothing, persist_ledger-AllOrNothing}
use pero_j.Db.Ledger.Resume.{persist_ledger-get_checkpoint}

program : Unit {0}
unfolding query settle carry_out fail view then_call event_insert_params or_empty add_event
    put_checkpoint insert_event insert_events upsert_event write_ledger persist_ledger
    get_checkpoint
program = tt

abbrev event : String → DecodedEvent
event f = record {
  contract_id = "C1";
  function = f;
  ledger = 8;
  tx_hash = "t";
  description = "d";
  raw_topics = f ∷ [];
  raw_data = "1";
  sac_asset = none;
  event_addresses = none;
  onchain_seq = none;
}

abbrev empty_tables : Tables
empty_tables = record { events = []; checkpoint_state = none }

abbrev idle : Tables → Client Tables
idle t = record { committed = t; working = none; asked = 0 }

abbrev mark : Checkpoint
mark = record { sequence = 8; hash = "h8" }

abbrev all_answered : ℕ → Answer
all_answered n = answered

-- The second insertion is refused.
abbrev refuses_third : ℕ → Answer
refuses_third n = if n == 2 then refused else answered

rolled_back :
    (persist_ledger true refuses_third
      (event "a" ∷ event "b" ∷ [])
      mark
      (idle empty_tables)).client.committed
    ≡ empty_tables
unfolding program
rolled_back = refl

-- An event that is written twice stands twice in the table.
written_twice :
    length
      (upsert_event all_answered
        (event "a")
        (upsert_event all_answered (event "a") (idle empty_tables)).client).client.committed.events
    ≡ 2
unfolding program
written_twice = refl

persist_ledger-AllOrNothing_example :
    AllOrNothing refuses_third
      (event "a" ∷ event "b" ∷ [])
      4
      empty_tables
      (written (event "a" ∷ event "b" ∷ []) mark empty_tables)
      (persist_ledger true refuses_third (event "a" ∷ event "b" ∷ []) mark (idle empty_tables))
persist_ledger-AllOrNothing_example =
    persist_ledger-AllOrNothing true refuses_third (event "a" ∷ event "b" ∷ []) mark empty_tables 0

persist_ledger-get_checkpoint_example :
    let p = persist_ledger true all_answered (event "a" ∷ []) mark (idle empty_tables) in
    (p.outcome ≡ returned tt)
    × (get_checkpoint p.client.committed
        ≡ (if leb mark.sequence max_safe then returned (some mark) else thrown mark.sequence))
persist_ledger-get_checkpoint_example =
    persist_ledger-get_checkpoint all_answered (event "a" ∷ []) mark empty_tables 0 (λ m. refl)
