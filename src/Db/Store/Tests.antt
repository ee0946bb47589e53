-- ===== src/Db/Store/Tests.antt =====
-- Runs of the tables of indexer/src/db.js.
use native.Mathlib.Decide.{ℕ_discrete}
use pero_j.Base.{none, [], ◌∷◌, ◌≡◌, refl}
use pero_j.Base.Codes.{Text, codes, eq_text, Text-discrete}
use pero_j.Db.Order.{where_rows, place, order_by}
use pero_j.Db.Store.{
  Submissions, MarketRow, insert_oracle_submission, get_latest_oracle_submission, or_default,
  submission_before, first_row, set_status, with_status, update_oracle_submission_status,
  upsert_market, merged_market, get_market,
}

program : Unit {0}
unfolding codes eq_text Text-discrete ℕ_discrete where_rows place order_by insert_oracle_submission
    get_latest_oracle_submission or_default submission_before first_row set_status with_status
    update_oracle_submission_status upsert_market merged_market get_market
program = tt

abbrev no_submissions : Submissions
no_submissions = record { rows = []; next_id = 1 }

abbrev one : Submissions
one = (insert_oracle_submission (1 ∷ []) (5 ∷ []) (89 ∷ []) 10 none none no_submissions).1

abbrev market_row : Text → Text → MarketRow
market_row contract state = record {
  id = 1 ∷ [];
  contract_id = contract;
  oracle_state = state;
  outcome = none;
  updated_at = 0;
}

-- The contract of a market is the first one that was written.
keeps_contract :
    upsert_market 9
      (market_row (8 ∷ []) (2 ∷ []))
      (upsert_market 4 (market_row (7 ∷ []) (1 ∷ [])) [])
    ≡ (
      1 ∷ [],
      record {
        id = 1 ∷ [];
        contract_id = 7 ∷ [];
        oracle_state = 2 ∷ [];
        outcome = none;
        updated_at = 9;
      },
    )
      ∷ []
unfolding program
keeps_contract = refl
