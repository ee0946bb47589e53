-- ===== src/Db/Ledger.antt =====
-- Writing the events of a ledger: `insertEvent`, `upsertEvent`, `persistLedger` and `getCheckpoint`
-- of indexer/src/db.js. The only key of the table `events` is the sequence number that the
-- database assigns, so `ON CONFLICT DO NOTHING` never applies. JSON texts are kept as their values.
pub mod Atomic
pub mod Resume
mod Tests
use Prim.Native.String.{String}
use pero_j.Base.{
  ℕ, Bool, true, false, Option, none, some, List, [], ◌∷◌, ◌++◌, map, Outcome, returned, thrown,
  if◌then◌else◌, leb,
}
use pero_j.Db.Transaction.{
  Answer, Failure, no_client, Statement, begin, commit, rollback, change, Client, query, then_call,
}

pub record DecodedEvent : Type 0 where
  pub contract_id : String
  pub function : String
  pub ledger : ℕ
  pub tx_hash : String
  pub description : String
  pub raw_topics : List String
  pub raw_data : String
  pub sac_asset : Option String
  pub event_addresses : Option (List String)
  pub onchain_seq : Option ℕ

pub record EventRow : Type 0 where
  pub contract_id : String
  pub function : String
  pub ledger : ℕ
  pub tx_hash : String
  pub description : String
  pub raw_topics : List String
  pub raw_data : String
  pub sac_asset : Option String
  pub event_addresses : List String
  pub onchain_seq : Option ℕ

unfoldable pub or_empty : Option (List String) → List String
or_empty none = []
or_empty (some xs) = xs

unfoldable pub event_insert_params : DecodedEvent → EventRow
event_insert_params ev = record {
  contract_id = ev.contract_id;
  function = ev.function;
  ledger = ev.ledger;
  tx_hash = ev.tx_hash;
  description = ev.description;
  raw_topics = ev.raw_topics;
  raw_data = ev.raw_data;
  sac_asset = ev.sac_asset;
  event_addresses = or_empty ev.event_addresses;
  onchain_seq = ev.onchain_seq;
}

pub record Checkpoint : Type 0 where
  pub sequence : ℕ
  pub hash : String

pub record Tables : Type 0 where
  pub events : List EventRow
  pub checkpoint_state : Option Checkpoint

unfoldable pub add_event : DecodedEvent → Tables → Tables
add_event ev t = record {
  events = t.events ++ event_insert_params ev ∷ [];
  checkpoint_state = t.checkpoint_state;
}

unfoldable pub put_checkpoint : Checkpoint → Tables → Tables
put_checkpoint cp t = record { events = t.events; checkpoint_state = some cp }

unfoldable pub insert_event :
    (ℕ → Answer) → DecodedEvent → Client Tables → Outcome Failure (Unit {0}) × Client Tables
insert_event answers ev c = query answers (change (add_event ev)) c

unfoldable pub insert_events :
    (ℕ → Answer) → List DecodedEvent → Client Tables → Outcome Failure (Unit {0}) × Client Tables
insert_events answers [] c = (returned tt, c)
insert_events answers (ev ∷ evs) c =
    then_call (insert_event answers ev c) (insert_events answers evs)

-- How a call ends, what it leaves, and the events it emitted to the listeners.
pub record Persisted : Type 0 where
  pub outcome : Outcome Failure (Unit {0})
  pub client : Client Tables
  pub emitted : List DecodedEvent

unfoldable pub upsert_event : (ℕ → Answer) → DecodedEvent → Client Tables → Persisted
upsert_event answers ev c =
    let r = insert_event answers ev c in
    elim r.0 [
      | returned u ↦ record { outcome = returned tt; client = r.1; emitted = ev ∷ [] }
      | thrown e ↦ record { outcome = thrown e; client = r.1; emitted = [] }
    ]

-- The body of the `try`.
unfoldable pub write_ledger :
    (ℕ → Answer)
    → List DecodedEvent
    → Checkpoint
    → Client Tables
    → Outcome Failure (Unit {0}) × Client Tables
write_ledger answers evs cp c = then_call (query answers begin c) λ c1.
    then_call (insert_events answers evs c1)
      λ c2. then_call (query answers (change (put_checkpoint cp)) c2) (query answers commit)

-- `connects`: whether the pool hands out a client. A failed rollback is only logged.
unfoldable pub persist_ledger :
    Bool → (ℕ → Answer) → List DecodedEvent → Checkpoint → Client Tables → Persisted
persist_ledger false answers evs cp c = record {
  outcome = thrown no_client;
  client = c;
  emitted = [];
}
persist_ledger true answers evs cp c =
    let r = write_ledger answers evs cp c in
    elim r.0 [
      | returned u ↦ record { outcome = returned tt; client = r.1; emitted = evs }
      | thrown e ↦ record {
        outcome = thrown e;
        client = (query answers rollback r.1).1;
        emitted = [];
      }
    ]

-- `Number.isSafeInteger` of the sequence, which the database keeps as a 64-bit integer.
abbrev pub max_safe : ℕ
max_safe = 9007199254740991

unfoldable pub read_checkpoint : Checkpoint → Outcome ℕ (Option Checkpoint)
read_checkpoint cp = if leb cp.sequence max_safe then returned (some cp) else thrown cp.sequence

-- It throws the sequence that it refuses.
unfoldable pub get_checkpoint : Tables → Outcome ℕ (Option Checkpoint)
get_checkpoint t = elim t.checkpoint_state [ none ↦ returned none | some cp ↦ read_checkpoint cp ]
