-- ===== src/Db/Migrations/Tests.antt =====
-- Runs of the migrations of indexer/src/db.js.
use pero_j.Base.{ℕ, true, none, [], ◌≡◌, refl, ◌==◌, if◌then◌else◌, returned, All}
use pero_j.Db.Transaction.{
  Answer, answered, refused, Client, query, settle, carry_out, fail, view, then_call,
}
use pero_j.Db.Migrations.{
  Schema, migrations, has_id, run_sql, record_migration, apply_new, apply_migration, apply_all,
  migrate, takes_effect, unlock, roll_back, init,
}
use pero_j.Db.Migrations.Once.{IsOnce, IsDistinct}
use pero_j.Db.Migrations.Settled.{init-IsOnce}

program : Unit {0}
unfolding query settle carry_out fail view then_call has_id run_sql record_migration apply_new
    apply_migration apply_all migrate takes_effect unlock roll_back init IsOnce IsDistinct
program = tt

abbrev idle : Schema → Client Schema
idle s = record { committed = s; working = none; asked = 0 }

abbrev no_schema : Schema
no_schema = record { schema_migrations = []; ran = [] }

abbrev start : (ℕ → Answer) → Schema → Schema
start answers s = (init true answers migrations (idle s)).client.committed

-- The script of the third migration is refused.
abbrev refuses_tenth : ℕ → Answer
refuses_tenth n = if n == 10 then refused else answered

abbrev all_answered : ℕ → Answer
all_answered n = answered

rolled_back : start refuses_tenth no_schema ≡ no_schema
unfolding program
rolled_back = refl

second_start : (start all_answered (start refuses_tenth no_schema)).ran ≡ migrations
unfolding program
second_start = refl

third_start : (start all_answered (start all_answered no_schema)).ran ≡ migrations
unfolding program
third_start = refl

init-IsOnce_example :
    let s = init true refuses_tenth migrations (idle no_schema) in
    IsOnce s.client.committed
    × (s.outcome ≡ returned tt
        → All (λ m. has_id m.id s.client.committed.schema_migrations ≡ true) migrations)
    × (s.locked ≡ true → (n : ℕ) × (refuses_tenth n ≡ refused))
unfolding program
init-IsOnce_example = init-IsOnce true refuses_tenth migrations no_schema (refl, tt)
