-- ===== src/Engine/Tests.antt =====
-- A market of three users, run through the engine of scripts/verify_invariants.js.
use native.Mathlib.Decide.{ℕ_discrete}
use pero_j.Base.{ℕ, ◌≡◌, ◌≢◌, refl, true, false, none, some, List, [], ◌∷◌, returned, arith, All}
use native.Mathlib.Decide.{ℕ_discrete}
use pero_j.Base.Int.{pos, ◌+ℤ◌, ◌-ℤ◌, ◌*ℤ◌, ◌/ℤ◌, ◌≤ℤ◌}
use pero_j.Engine
use pero_j.Engine.{
  Error, violation, Bet, Market, Engine, new_market, checked, create_market, take_bet, add_bet,
  bet_fee, decide_market, place_bet, escrow_bond, settle_bond, resolve_market, pay, claim_payout,
  withdraw_fees, share, actual_payout, winning_pool, total_pool, claim_bets, on_side, wins,
  market_exists, assert_invariant, market_liabilities_from, sum_market_liabilities, bonds_from,
  sum_escrowed_bonds, new_engine,
}
use pero_j.Engine.Balance.{IsBalanced}
use pero_j.Engine.Run.{Call, call, run, run-IsBalanced}
use pero_j.Engine.Solvent.{run-solvent}
use pero_j.Engine.Repeat.{claim_payout_again}

program : Unit {0}
unfolding Engine.create_market take_bet add_bet bet_fee place_bet escrow_bond settle_bond
    decide_market resolve_market claim_bets share actual_payout pay claim_payout withdraw_fees
    checked assert_invariant market_liabilities_from sum_market_liabilities bonds_from
    sum_escrowed_bonds ◌+ℤ◌ ◌-ℤ◌ ◌*ℤ◌ ◌/ℤ◌ call run ℕ_discrete
program = tt

-- User 1 bets 1000 and user 2 bets 500 on yes, user 3 bets 2000 on no; yes wins, user 1 claims.
abbrev calls : List (Call ℕ)
calls =
    Call.create_market 7
    ∷ Call.place_bet 7 1 true (pos 1000) (pos 100)
    ∷ Call.place_bet 7 2 true (pos 500) (pos 100)
    ∷ Call.place_bet 7 3 false (pos 2000) (pos 100)
    ∷ Call.escrow_bond 9 (pos 50)
    ∷ Call.create_market 7
    ∷ Call.settle_bond 9 false
    ∷ Call.resolve_market 7 true
    ∷ Call.claim_payout 7 1
    ∷ Call.withdraw_fees (pos 60)
    ∷ []

abbrev market : Market ℕ
market = record {
  total_yes = pos 1485;
  total_no = pos 1980;
  claimed = pos 2310;
  resolved = true;
  winning_outcome = some true;
  bets =
      record { user = 1; is_yes = true; amount = pos 990; claimed = true }
      ∷ record { user = 2; is_yes = true; amount = pos 495; claimed = false }
      ∷ record { user = 3; is_yes = false; amount = pos 1980; claimed = false }
      ∷ [];
}

run-calls : run ℕ_discrete calls new_engine ≡ (
  none ∷ none ∷ none ∷ none ∷ none ∷ some market_exists ∷ none ∷ none ∷ none ∷ none ∷ [],
  record {
    contract_balance = pos 1180;
    accumulated_fees = pos 25;
    markets = (7, market) ∷ [];
    escrowed_bonds = [];
    step_count = 9;
  },
)
unfolding program
run-calls = refl

run-IsBalanced_example :
    let (xs, e) = run ℕ_discrete calls new_engine in All (λ x. x ≢ some violation) xs × IsBalanced e
run-IsBalanced_example = run-IsBalanced ℕ_discrete calls

run-solvent_example :
    ((claim_payout ℕ_discrete 7 2 (run ℕ_discrete calls new_engine).1).0 ≡ returned (pos 1155))
    × (pos 2310 ≤ℤ pos 1485 +ℤ pos 1980)
unfolding program
run-solvent_example =
    run-solvent ℕ_discrete calls 7 2 market true (omega arith) refl refl refl (omega arith)

claim_payout_again_example :
    (claim_payout ℕ_discrete 7 2
      (claim_payout ℕ_discrete 7 2 (run ℕ_discrete calls new_engine).1).1).0
    ≡ returned (pos 0)
unfolding program
claim_payout_again_example =
    claim_payout_again ℕ_discrete 7 2 (run ℕ_discrete calls new_engine).1 (pos 1155) refl
