-- ===== src/Escrow.antt =====
-- The audit of the bond escrow and its circuit breaker: `BondEscrowWorker` of
-- indexer/src/bond-escrow-worker.js. Amounts are whole numbers; `none` is what `Number` reads as
-- NaN. What the database and the contract answer, and the time, are arguments of each audit.
-- The messages on the console and the alert callback, which only observe, are left out.
pub mod Breaker
mod Tests
use Prim.Native.String.{String}
use pero_j.Base.{
  ℕ, ◌-◌, Bool, true, false, not, ◌&&◌, Option, none, some, List, [], ◌∷◌, Outcome, returned,
  thrown, if◌then◌else◌, ltb, take, length,
}
use pero_j.Base.Int.{ℤ, pos, ◌-ℤ◌, eqb_ℤ}
use pero_j.Base.Text.{or_else}

pub record Accounting : Type 0 where
  pub total_bonds_deposited : Option ℤ
  pub total_bonds_settled : Option ℤ
  pub expected_escrow_holdings : Option ℤ
  pub active_disputes : ℕ

-- The details of a violation.
pub record Leakage : Type 0 where
  pub total_bonds_deposited : ℤ
  pub total_bonds_settled : ℤ
  pub expected_escrow_holdings : ℤ
  pub current_escrow_holdings : ℤ
  pub leakage_amount : ℤ

-- `BigInt(Math.floor(Number(x) || 0))`
unfoldable pub amount : Option ℤ → ℤ
amount none = pos 0
amount (some x) = x

unfoldable pub assert_invariant : Option ℤ → Option ℤ → Option ℤ → Outcome Leakage (Unit {0})
assert_invariant total_deposited total_settled current_holdings =
    let deposited = amount total_deposited in
    let settled = amount total_settled in
    let actual = amount current_holdings in
    let expected = deposited -ℤ settled in
    if eqb_ℤ expected actual
    then returned tt
    else thrown (record {
      total_bonds_deposited = deposited;
      total_bonds_settled = settled;
      expected_escrow_holdings = expected;
      current_escrow_holdings = actual;
      leakage_amount = expected -ℤ actual;
    })

pub record CircuitBreaker : Type 0 where
  pub tripped : Bool
  pub reason : Option String
  pub tripped_at : Option ℕ
  pub details : Option Leakage

abbrev pub closed : CircuitBreaker
closed = record { tripped = false; reason = none; tripped_at = none; details = none }

pub data Report : Type 0 where
  -- checked_at, the accounting, current_escrow_holdings, resolution_allowed
  passed : ℕ → Accounting → Option ℤ → Bool → Report
  -- checked_at, details, the breaker's status and `automated_resolution_halted`
  violated : ℕ → Leakage → CircuitBreaker → Bool → Report

pub record Auditor : Type 0 where
  pub circuit_breaker : CircuitBreaker
  pub automated_resolution_halted : Bool
  pub audit_history : List Report

abbrev pub new_auditor : Auditor
new_auditor = record {
  circuit_breaker = closed;
  automated_resolution_halted = false;
  audit_history = [];
}

unfoldable pub is_resolution_allowed : Auditor → Bool
is_resolution_allowed w = not w.automated_resolution_halted && not w.circuit_breaker.tripped

unfoldable pub halt_automated_resolution : Auditor → Auditor
halt_automated_resolution w = record w { automated_resolution_halted = true }

abbrev pub mismatch : String
mismatch = "Bond escrow accounting mismatch detected (zero fund leakage violated)"

-- The details of a violation have no reason of their own.
unfoldable pub trip_circuit_breaker : Leakage → ℕ → Auditor → Auditor
unfolding halt_automated_resolution
trip_circuit_breaker details now w = halt_automated_resolution (record w {
  circuit_breaker = record {
    tripped = true;
    reason = some mismatch;
    tripped_at = some now;
    details = some details;
  };
})

unfoldable pub reset_circuit_breaker : Auditor → Auditor
reset_circuit_breaker w = record w { circuit_breaker = closed; automated_resolution_halted = false }

-- `unshift`, and `pop` when there are more than 50.
unfoldable pub add_report : Report → Auditor → Auditor
add_report r w =
    let longer = r ∷ w.audit_history in
    record w {
      audit_history = if ltb 50 (length longer) then take (length longer - 1) longer else longer;
    }

-- The accounting that the catch block puts in place of what the database did not answer.
abbrev pub no_accounting : Accounting
no_accounting = record {
  total_bonds_deposited = some (pos 0);
  total_bonds_settled = some (pos 0);
  expected_escrow_holdings = some (pos 0);
  active_disputes = 0;
}

unfoldable pub accounting_of : {E : Type 0} → Outcome E Accounting → Accounting
accounting_of (returned a) = a
accounting_of (thrown e) = no_accounting

-- The balance that is given; or else what `getContractBalance` answers, if there is one and it
-- does not throw; or else what the accounting expects.
unfoldable pub actual_holdings :
    {E : Type 0} → Option ℤ → Option (Outcome E (Option ℤ)) → Accounting → Option ℤ
actual_holdings (some b) get_balance a = some b
actual_holdings none none a = a.expected_escrow_holdings
actual_holdings none (some (returned b)) a = b
actual_holdings none (some (thrown e)) a = a.expected_escrow_holdings

-- What the outside answers in one audit.
pub record Inputs (E : Type 0) : Type 0 where
  pub now : ℕ
  pub accounting : Outcome E Accounting
  pub contract_balance : Option ℤ
  pub get_contract_balance : Option (Outcome E (Option ℤ))

-- `accounting_of`, `actual_holdings` and `assertInvariant` in one.
unfoldable pub audit : {E : Type 0} → Inputs E → Outcome Leakage (Unit {0})
unfolding accounting_of
audit i =
    let a = accounting_of i.accounting in
    assert_invariant a.total_bonds_deposited a.total_bonds_settled
      (actual_holdings i.contract_balance i.get_contract_balance a)

unfoldable pub verify_escrow_invariant : {E : Type 0} → Inputs E → Auditor → Report × Auditor
verify_escrow_invariant i w =
    let a = accounting_of i.accounting in
    elim (audit i) [
      | returned _ ↦
          let holdings = actual_holdings i.contract_balance i.get_contract_balance a in
          let report = passed i.now a holdings (is_resolution_allowed w) in
          (report, add_report report w)
      | thrown details ↦
          let v = trip_circuit_breaker details i.now w in
          let report = violated i.now details v.circuit_breaker v.automated_resolution_halted in
          (report, add_report report v)
    ]
