-- ===== src/Oracle/Freshness/Tests.antt =====
-- Runs of the freshness rule of oracle/src/adapters/freshness.js.
use pero_j.Base.{ℕ, ◌≡◌, refl, none, some, [], ◌∷◌, Outcome, returned, thrown}
use pero_j.Base.Int.{ℤ, pos, ◌*ℤ◌, ◌-ℤ◌}
use pero_j.Oracle.Freshness.{
  number, Response, get_timestamp, time_value, is_fresh, try_adapters, fetch_fresh_from_adapters,
}
use pero_j.Oracle.Freshness.First.{FirstFresh, fetch_fresh_from_adapters-FirstFresh}

program : Unit {0}
unfolding get_timestamp time_value is_fresh try_adapters fetch_fresh_from_adapters ◌*ℤ◌ ◌-ℤ◌
program = tt

-- The world is the clock, in milliseconds.
abbrev clock : ℤ → ℤ
clock w = w

abbrev answer : ℕ → Response ℕ
answer t = record { value = 5; last_updated = none; timestamp = some (number (pos t)) }

abbrev old : ℤ → ℤ × Outcome (Unit {0}) (Response ℕ)
old w = (w, returned (answer 1700000000))

abbrev new : ℤ → ℤ × Outcome (Unit {0}) (Response ℕ)
new w = (w, returned (answer 1700000900))

abbrev broken : ℤ → ℤ × Outcome (Unit {0}) (Response ℕ)
broken w = (w, thrown tt)

-- Fifteen minutes after the first answer.
abbrev now : ℤ
now = pos 1700000900001

takes_the_fresh_one :
    fetch_fresh_from_adapters clock (pos 600000) (broken ∷ old ∷ new ∷ []) now
    ≡ (returned (answer 1700000900), now)
unfolding program
takes_the_fresh_one = refl

fetch_fresh_from_adapters-FirstFresh_example :
    FirstFresh clock
      (pos 600000)
      (broken ∷ old ∷ new ∷ [])
      now
      []
      (fetch_fresh_from_adapters clock (pos 600000) (broken ∷ old ∷ new ∷ []) now)
fetch_fresh_from_adapters-FirstFresh_example =
    fetch_fresh_from_adapters-FirstFresh clock (pos 600000) broken (old ∷ new ∷ []) now refl
