-- ===== src/Escrow/Tests.antt =====
-- Runs of the escrow audit of indexer/src/bond-escrow-worker.js.
use pero_j.Base.{
  ℕ, ◌≡◌, ◌↔◌, refl, true, false, none, some, List, [], ◌∷◌, Outcome, returned, thrown,
}
use pero_j.Base.Int.{pos, ◌-ℤ◌}
use pero_j.Escrow.{
  Accounting, assert_invariant, is_resolution_allowed, halt_automated_resolution,
  trip_circuit_breaker, reset_circuit_breaker, add_report, accounting_of, actual_holdings, Inputs,
  audit, verify_escrow_invariant, amount,
}
use pero_j.Escrow.Breaker.{Call, verify, reset, halt, perform, after, IsClear, Kept, after-allowed}

program : Unit {0}
unfolding assert_invariant is_resolution_allowed halt_automated_resolution trip_circuit_breaker
    reset_circuit_breaker add_report accounting_of actual_holdings audit verify_escrow_invariant
    amount perform after ◌-ℤ◌
program = tt

abbrev books : Outcome (Unit {0}) Accounting
books = returned (record {
  total_bonds_deposited = some (pos 900);
  total_bonds_settled = some (pos 400);
  expected_escrow_holdings = some (pos 500);
  active_disputes = 2;
})

abbrev at_balance : ℕ → Inputs (Unit {0})
at_balance b = record {
  now = 1;
  accounting = books;
  contract_balance = some (pos b);
  get_contract_balance = none;
}

-- The database does not answer, and the contract holds 500.
abbrev no_books : Inputs (Unit {0})
no_books = record (at_balance 500) { accounting = thrown tt }

sound_books : is_resolution_allowed (after (verify (at_balance 500) ∷ [])) ≡ true
unfolding program
sound_books = refl

stays_tripped :
    is_resolution_allowed (after (verify (at_balance 500) ∷ verify (at_balance 499) ∷ [])) ≡ false
unfolding program
stays_tripped = refl

trips_without_books : is_resolution_allowed (after (verify no_books ∷ [])) ≡ false
unfolding program
trips_without_books = refl

abbrev calls : List (Call (Unit {0}))
calls = verify (at_balance 500) ∷ reset ∷ verify (at_balance 499) ∷ halt ∷ []

after-allowed_example :
    ((is_resolution_allowed (after calls) ≡ true) ↔ IsClear calls) × Kept (after calls)
after-allowed_example = after-allowed calls
