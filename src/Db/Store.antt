-- ===== src/Db/Store.antt =====
-- The other tables of indexer/src/db.js: contracts, markets, oracle submissions and disputes, the
-- dead-letter queue and the indexer's cursor. Every query is answered; what the database would
-- throw passes through unchanged. `now` is its clock.
pub mod Latest
mod Tests
use pero_j.Base.{
  ℕ, suc, ◌+◌, ◌-◌, Bool, true, false, ◌&&◌, ◌||◌, Option, none, some, List, [], ◌∷◌, ◌++◌, ltb,
  leb, ◌==◌, if◌then◌else◌, length, Outcome, returned, ◌>>=◌, is_some,
}
use pero_j.Base.Int.{ℤ, pos, ◌-ℤ◌, ◌*ℤ◌}
use pero_j.Base.Dict.{Dict, lookup, insert, erase}
use pero_j.Base.Codes.{Text, Text-discrete, eq_text}
use pero_j.Base.Decimal.{print_ℕ, decimal_value}
use pero_j.ScVal.{Js}
use pero_j.Db.Order.{where_rows, order_by}
use pero_j.Db.Pages.{Fault, number_or, select_page, Cursor}
use pero_j.Db.Search.{like, search_pattern}

pub record ContractMeta : Type 0 where
  pub id : Text
  pub name : Text
  pub description : Text
  pub functions : Js
  pub registered_by : Option Text

unfoldable pub get_contract_meta : Text → Dict Text ContractMeta → Option ContractMeta
get_contract_meta id contracts = lookup Text-discrete id contracts

unfoldable pub upsert_contract_meta : ContractMeta → Dict Text ContractMeta → Dict Text ContractMeta
upsert_contract_meta meta contracts = insert Text-discrete meta.id meta contracts

-- With the number of rows that it deleted.
unfoldable pub delete_contract_meta : Text → Dict Text ContractMeta → ℕ × Dict Text ContractMeta
delete_contract_meta id contracts =
    (if is_some (lookup Text-discrete id contracts) then 1 else 0, erase Text-discrete id contracts)

pub record ContractPage : Type 0 where
  pub contracts : List ContractMeta
  pub total : ℕ
  pub page_num : ℤ
  pub limit : ℤ

unfoldable pub contract_matches : (ℕ → ℕ) → Text → ContractMeta → Bool
contract_matches fold [] m = true
contract_matches fold (c ∷ q) m =
    like fold (search_pattern (c ∷ q)) m.name || like fold (search_pattern (c ∷ q)) m.description

-- `ORDER BY name ASC`, by the order of texts in the database.
unfoldable pub get_contracts :
    (fold : ℕ → ℕ) (text_before : Text → Text → Bool)
    → Text
    → Option ℤ
    → Option ℤ
    → List ContractMeta
    → Outcome Fault ContractPage
get_contracts fold text_before q page limit table =
    let p = number_or (pos 1) page in
    let n = number_or (pos 25) limit in
    let found = where_rows (contract_matches fold q) table in
    select_page (λ a b. text_before b.name a.name) (λ m (c : Cursor Text). false)
      (λ m. record { id = m.id; time = 0 }) n ((p -ℤ pos 1) *ℤ n) none found
    >>= λ rows.
        returned (record { contracts = rows; total = length found; page_num = p; limit = n })

-- The state of an oracle on a market, and its outcome if it has one.
pub record MarketRow : Type 0 where
  pub id : Text
  pub contract_id : Text
  pub oracle_state : Text
  pub outcome : Option Text
  pub updated_at : ℕ

unfoldable pub get_market : Text → Dict Text MarketRow → Option MarketRow
get_market id markets = lookup Text-discrete id markets

-- A market that is there keeps its contract.
unfoldable pub merged_market : ℕ → MarketRow → Option MarketRow → MarketRow
merged_market now m none = record {
  id = m.id;
  contract_id = m.contract_id;
  oracle_state = m.oracle_state;
  outcome = m.outcome;
  updated_at = now;
}
merged_market now m (some old) = record {
  id = m.id;
  contract_id = old.contract_id;
  oracle_state = m.oracle_state;
  outcome = m.outcome;
  updated_at = now;
}

unfoldable pub upsert_market : ℕ → MarketRow → Dict Text MarketRow → Dict Text MarketRow
upsert_market now m markets =
    insert Text-discrete m.id (merged_market now m (get_market m.id markets)) markets

pub record Submission : Type 0 where
  pub id : ℕ
  pub market_id : Text
  pub submitter : Text
  pub outcome : Text
  pub ledger : ℕ
  pub tx_hash : Option Text
  pub status : Text

-- The table with the next id of its sequence.
pub record Submissions : Type 0 where
  pub rows : List Submission
  pub next_id : ℕ

unfoldable pub or_default : Text → Option Text → Text
or_default d none = d
or_default d (some t) = t

abbrev pub pending : Text
pending = 112 ∷ 101 ∷ 110 ∷ 100 ∷ 105 ∷ 110 ∷ 103 ∷ []

unfoldable pub insert_oracle_submission :
    (market : Text) (submitter outcome : Text) (ledger : ℕ) (tx_hash status : Option Text)
    → Submissions
    → ℕ × Submissions
insert_oracle_submission market submitter outcome ledger tx_hash status table = (
  table.next_id,
  record {
    rows =
        table.rows
        ++ record {
          id = table.next_id;
          market_id = market;
          submitter = submitter;
          outcome = outcome;
          ledger = ledger;
          tx_hash = tx_hash;
          status = or_default pending status;
        }
          ∷ [];
    next_id = suc table.next_id;
  },
)

unfoldable pub with_status : Text → Submission → Submission
with_status status s = record {
  id = s.id;
  market_id = s.market_id;
  submitter = s.submitter;
  outcome = s.outcome;
  ledger = s.ledger;
  tx_hash = s.tx_hash;
  status = status;
}

unfoldable pub set_status : ℕ → Text → List Submission → List Submission
set_status id status [] = []
set_status id status (s ∷ rows) =
    let rest = set_status id status rows in
    if s.id == id then with_status status s ∷ rest else s ∷ rest

unfoldable pub update_oracle_submission_status : ℕ → Text → Submissions → Submissions
update_oracle_submission_status id status table = record {
  rows = set_status id status table.rows;
  next_id = table.next_id;
}

unfoldable pub submission_before : Submission → Submission → Bool
submission_before a b = ltb a.ledger b.ledger || ((a.ledger == b.ledger) && ltb a.id b.id)

unfoldable pub first_row : {R : Type 0} → List R → Option R
first_row [] = none
first_row (r ∷ rows) = some r

-- `ORDER BY ledger DESC, id DESC LIMIT 1`
unfoldable pub get_latest_oracle_submission : Text → Submissions → Option Submission
get_latest_oracle_submission market table =
    first_row (order_by submission_before (where_rows (λ s. eq_text s.market_id market) table.rows))
