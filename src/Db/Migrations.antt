-- ===== src/Db/Migrations.antt =====
-- The schema migrations that `init` of indexer/src/db.js runs before startup. What a migration does
-- to the schema is kept as a log of the scripts that were carried out. Each run has a client of its
-- own from the pool. The advisory lock belongs to the session, so no rollback gives it back.
pub mod Once
pub mod Settled
mod Tests
use Prim.Native.String.{String}
use pero_j.Base.{
  ℕ, Bool, true, false, ◌||◌, none, List, [], ◌∷◌, ◌++◌, ◌==◌, if◌then◌else◌, Outcome, returned,
  thrown,
}
use pero_j.Db.Transaction.{
  Answer, answered, refused, lost, Failure, no_client, failed_query, Statement, begin, commit,
  rollback, change, Client, view, query, then_call,
}

pub record Migration : Type 0 where
  pub id : ℕ
  pub name : String

pub record Schema : Type 0 where
  pub schema_migrations : List Migration
  pub ran : List Migration

abbrev pub migrations : List Migration
migrations =
    record { id = 1; name = "create_events_and_contracts" }
    ∷ record { id = 2; name = "add_events_optional_columns" }
    ∷ record { id = 3; name = "create_events_indexes" }
    ∷ record { id = 4; name = "backfill_null_event_addresses" }
    ∷ record { id = 5; name = "add_description_tsvector_gin_index" }
    ∷ record { id = 6; name = "ensure_events_sac_asset_column" }
    ∷ record { id = 7; name = "create_oracle_and_markets_tables" }
    ∷ []

unfoldable pub has_id : ℕ → List Migration → Bool
has_id i [] = false
has_id i (m ∷ ms) = (m.id == i) || has_id i ms

unfoldable pub run_sql : Migration → Schema → Schema
run_sql m s = record { schema_migrations = s.schema_migrations; ran = s.ran ++ m ∷ [] }

unfoldable pub record_migration : Migration → Schema → Schema
record_migration m s = record { schema_migrations = s.schema_migrations ++ m ∷ []; ran = s.ran }

-- A query that changes no row: `SELECT`, and `CREATE TABLE IF NOT EXISTS`.
abbrev pub same_schema : Statement Schema
same_schema = change (λ s. s)

unfoldable pub apply_new :
    (ℕ → Answer) → Migration → Bool → Client Schema → Outcome Failure (Unit {0}) × Client Schema
apply_new answers m true c = (returned tt, c)
apply_new answers m false c =
    then_call (query answers (change (run_sql m)) c) (query answers (change (record_migration m)))

unfoldable pub apply_migration :
    (ℕ → Answer) → Migration → Client Schema → Outcome Failure (Unit {0}) × Client Schema
apply_migration answers m c =
    then_call (query answers same_schema c)
      λ c1. apply_new answers m (has_id m.id (view c1).schema_migrations) c1

unfoldable pub apply_all :
    (ℕ → Answer) → List Migration → Client Schema → Outcome Failure (Unit {0}) × Client Schema
apply_all answers [] c = (returned tt, c)
apply_all answers (m ∷ ms) c = then_call (apply_migration answers m c) (apply_all answers ms)

-- What stands in the `try` after the lock is taken.
unfoldable pub migrate :
    (ℕ → Answer) → List Migration → Client Schema → Outcome Failure (Unit {0}) × Client Schema
migrate answers ms c = then_call (query answers begin c) λ c1.
    then_call (query answers same_schema c1)
      λ c2. then_call (apply_all answers ms c2) (query answers commit)

-- `locked`: whether the session holds the advisory lock after the call.
pub record Started : Type 0 where
  pub outcome : Outcome Failure (Unit {0})
  pub client : Client Schema
  pub locked : Bool

unfoldable pub takes_effect : Answer → Bool
takes_effect answered = true
takes_effect refused = false
takes_effect lost = true

-- `finally`: a failed unlock is only logged.
unfoldable pub unlock : (ℕ → Answer) → Bool → Outcome Failure (Unit {0}) × Client Schema → Started
unlock answers locked r = record {
  outcome = r.0;
  client = (query answers same_schema r.1).1;
  locked = if takes_effect (answers r.1.asked) then false else locked;
}

-- `catch`: the error is thrown again, unless the rollback throws another one.
unfoldable pub roll_back :
    (ℕ → Answer)
    → Outcome Failure (Unit {0}) × Client Schema
    → Outcome Failure (Unit {0}) × Client Schema
roll_back answers (returned u, c) = (returned u, c)
roll_back answers (thrown e, c) = then_call (query answers rollback c) λ c1. (thrown e, c1)

unfoldable pub init : Bool → (ℕ → Answer) → List Migration → Client Schema → Started
init false answers ms c = record { outcome = thrown no_client; client = c; locked = false }
init true answers ms c =
    unlock answers (takes_effect (answers c.asked))
      (roll_back answers (then_call (query answers same_schema c) (migrate answers ms)))
