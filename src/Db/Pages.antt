-- ===== src/Db/Pages.antt =====
-- The pages of `getMarkets`, `getBets`, `getLeaderboard` and `getEvents` of indexer/src/db.js. A
-- time is in microseconds, as the database keeps it; the driver reads it in milliseconds. The
-- JSON and base64url text of a cursor is kept as the pair of id and time that it stands for, and
-- numbers of a request are whole or not a number.
pub mod Walk
pub mod Complete
mod Tests
use pero_j.Base.{
  ℕ, ◌+◌, ◌-◌, ◌*◌, ◌/◌, Bool, true, false, ◌&&◌, ◌||◌, Option, none, some, List, [], ◌∷◌, ltb,
  ◌==◌, if◌then◌else◌, length, take, drop, Outcome, returned, thrown, ite,
}
use pero_j.Base.Int.{ℤ, pos, negsuc, ◌+ℤ◌, ◌-ℤ◌, ◌*ℤ◌, ltb_ℤ, leb_ℤ, eqb_ℤ, pos_part}
use pero_j.Db.Order.{where_rows, order_by}

abbrev pub max_page : ℤ
max_page = pos 200

abbrev pub min_ℤ : ℤ → ℤ → ℤ
min_ℤ a b = if leb_ℤ a b then a else b

abbrev pub max_ℤ : ℤ → ℤ → ℤ
max_ℤ a b = if leb_ℤ a b then b else a

-- `Number(text) || fallback`
unfoldable pub number_or : ℤ → Option ℤ → ℤ
number_or fallback none = fallback
number_or fallback (some n) = if eqb_ℤ n (pos 0) then fallback else n

unfoldable pub limit_num : ℤ → Option ℤ → ℤ
limit_num fallback limit = min_ℤ max_page (number_or fallback limit)

-- What `LIMIT` makes of a negative number, a query that does not reach the database, and what
-- `toISOString` throws of a date that is none.
pub data Fault : Type 0 where
  negative_limit unreachable invalid_time : Fault

pub record QueryPage (R C : Type 0) : Type 0 where
  pub items : List R
  pub next_cursor : Option C
  pub total : ℕ
  pub limit : ℤ
  pub page_num : ℤ

unfoldable pub pop : {R : Type 0} → List R → List R
pop rows = take (length rows - 1) rows

unfoldable pub last_row : {R : Type 0} → List R → Option R
last_row [] = none
last_row (r ∷ []) = some r
last_row (r ∷ s ∷ rows) = last_row (s ∷ rows)

unfoldable pub offset_of : {C : Type 0} → Option C → ℤ → ℤ → ℤ
offset_of (some c) page limit = pos 0
offset_of none page limit = if ltb_ℤ (pos 1) page then (page -ℤ pos 1) *ℤ limit else pos 0

module _ {R C : Type 0} (order : R → R → Bool) (cut : R → C → Bool) (encode : R → C) where
  unfoldable pub selected : Option C → List R → List R
  selected none rows = rows
  selected (some c) rows = where_rows (λ r. cut r c) rows

  -- `SELECT * … WHERE … ORDER BY … DESC LIMIT … OFFSET …`
  unfoldable pub select_page : ℤ → ℤ → Option C → List R → Outcome Fault (List R)
  select_page limit offset cursor rows =
      if ltb_ℤ limit (pos 0)
      then thrown negative_limit
      else returned
          (take (pos_part limit) (drop (pos_part offset) (order_by order (selected cursor rows))))

  unfoldable pub encode_last : Option R → Option C
  encode_last none = none
  encode_last (some r) = some (encode r)

  -- One row more than the page was asked for: it tells that there is a next page.
  unfoldable pub close_page : ℤ → List R → List R × Option C
  close_page limit rows =
      if ltb_ℤ limit (pos (length rows))
      then (pop rows, encode_last (last_row (pop rows)))
      else (rows, none)

  unfoldable pub page_of : ℕ → ℤ → ℤ → List R → QueryPage R C
  page_of total limit page rows =
      let done = close_page limit rows in
      record { items = done.0; next_cursor = done.1; total = total; limit = limit; page_num = page }

-- The columns of a market and of a bet that the queries read.
pub record MarketEntry (RowId : Type 0) : Type 0 where
  pub id : RowId
  pub created_at : ℕ

pub record BetEntry (RowId : Type 0) : Type 0 where
  pub id : RowId
  pub market_id : RowId
  pub created_at : ℕ

pub record Cursor (RowId : Type 0) : Type 0 where
  pub id : RowId
  pub time : ℕ

-- `new Date(created_at).toISOString()`
unfoldable pub iso_time : ℕ → ℕ
iso_time micros = (micros / 1000) * 1000

-- How the database answers the two queries of a page.
pub record Reach : Type 0 where
  pub count_answers : Bool
  pub select_answers : Bool

module _ {RowId : Type 0} (lt : RowId → RowId → Bool) where
  -- `(created_at, id) < (time, id)`
  unfoldable pub key_lt : ℕ → RowId → ℕ → RowId → Bool
  key_lt t i u j = ltb t u || ((t == u) && lt i j)

  abbrev pub market_before : MarketEntry RowId → MarketEntry RowId → Bool
  market_before a b = key_lt a.created_at a.id b.created_at b.id

  abbrev pub market_cut : MarketEntry RowId → Cursor RowId → Bool
  market_cut m c = key_lt m.created_at m.id c.time c.id

  abbrev pub bet_before : BetEntry RowId → BetEntry RowId → Bool
  bet_before a b = key_lt a.created_at a.id b.created_at b.id

  abbrev pub bet_cut : BetEntry RowId → Cursor RowId → Bool
  bet_cut b c = key_lt b.created_at b.id c.time c.id

unfoldable pub encode_market : {RowId : Type 0} → MarketEntry RowId → Cursor RowId
encode_market m = record { id = m.id; time = iso_time m.created_at }

unfoldable pub encode_bet : {RowId : Type 0} → BetEntry RowId → Cursor RowId
encode_bet b = record { id = b.id; time = iso_time b.created_at }

unfoldable pub rows_or_none : {R : Type 0} → Bool → Outcome Fault (List R) → List R
rows_or_none false answer = []
rows_or_none true (returned rows) = rows
rows_or_none true (thrown fault) = []

module _ {RowId : Type 0} (lt : RowId → RowId → Bool) where
  -- Both queries stand in one `try`: after a failed count the rows are not asked for.
  unfoldable pub get_markets :
      Reach
      → Option ℤ
      → Option (Cursor RowId)
      → Option ℤ
      → List (MarketEntry RowId)
      → QueryPage (MarketEntry RowId) (Cursor RowId)
  get_markets reach limit cursor page table =
      let n = limit_num (pos 20) limit in
      let p = number_or (pos 1) page in
      let answer =
        select_page (market_before lt) (market_cut lt) encode_market (n +ℤ pos 1)
          (offset_of cursor p n) cursor table in
      let rows = rows_or_none (reach.count_answers && reach.select_answers) answer in
      page_of (market_before lt) (market_cut lt) encode_market
        (if reach.count_answers then length table else 0) n p rows

  unfoldable pub bets_of :
      (RowId → RowId → Bool) → Option RowId → List (BetEntry RowId) → List (BetEntry RowId)
  bets_of same none table = table
  bets_of same (some market) table = where_rows (λ b. same b.market_id market) table

  unfoldable pub get_bets :
      (RowId → RowId → Bool)
      → Reach
      → Option RowId
      → Option ℤ
      → Option (Cursor RowId)
      → Option ℤ
      → List (BetEntry RowId)
      → QueryPage (BetEntry RowId) (Cursor RowId)
  get_bets same reach market limit cursor page table =
      let n = limit_num (pos 20) limit in
      let p = number_or (pos 1) page in
      let bets = bets_of same market table in
      let answer =
        select_page (bet_before lt) (bet_cut lt) encode_bet (n +ℤ pos 1) (offset_of cursor p n)
          cursor bets in
      let rows = rows_or_none (reach.count_answers && reach.select_answers) answer in
      page_of (bet_before lt) (bet_cut lt) encode_bet
        (if reach.count_answers then length bets else 0) n p rows
