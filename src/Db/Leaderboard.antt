-- ===== src/Db/Leaderboard.antt =====
-- The contracts with the most events: `getLeaderboard` of indexer/src/db.js, called with options.
pub mod Ranked
mod Tests
use pero_j.Base.{
  ℕ, ◌+◌, Bool, true, Option, none, some, List, [], ◌∷◌, map, length, if◌then◌else◌, Outcome,
  returned, thrown, ◌>>=◌, ite,
}
use pero_j.Base.Int.{ℤ, pos, ◌+ℤ◌, ltb_ℤ}
use pero_j.Base.Dict.{Dict, lookup}
use pero_j.Db.Pages.{
  QueryPage, Cursor, Fault, invalid_time, pop, last_row, number_or, offset_of, select_page, page_of,
  key_lt, min_ℤ, max_ℤ,
}

pub record Rank (RowId : Type 0) : Type 0 where
  pub contract_id : RowId
  pub name : RowId
  pub event_count : ℕ

module _ {RowId : Type 0} (dec : Discrete RowId) where
  -- One event more of a contract.
  unfoldable pub count_event : RowId → List (Rank RowId) → List (Rank RowId)
  count_event id [] = record { contract_id = id; name = id; event_count = 1 } ∷ []
  count_event id (r ∷ ranks) =
      let rest = count_event id ranks in
      ite (dec id r.contract_id)
        (record { contract_id = r.contract_id; name = r.name; event_count = r.event_count + 1 }
          ∷ ranks)
        (r ∷ rest)

  -- `GROUP BY e.contract_id`, with `COUNT(*)`
  unfoldable pub group_events : List RowId → List (Rank RowId)
  group_events [] = []
  group_events (id ∷ ids) = count_event id (group_events ids)

  -- `COALESCE(c.name, e.contract_id)`
  unfoldable pub or_id : RowId → Option RowId → RowId
  or_id id none = id
  or_id id (some name) = name

  unfoldable pub with_name : Dict RowId RowId → Rank RowId → Rank RowId
  with_name contracts r = record {
    contract_id = r.contract_id;
    name = or_id r.contract_id (lookup dec r.contract_id contracts);
    event_count = r.event_count;
  }

module _ {RowId : Type 0} (lt : RowId → RowId → Bool) where
  abbrev pub rank_before : Rank RowId → Rank RowId → Bool
  rank_before a b = key_lt lt a.event_count a.contract_id b.event_count b.contract_id

  -- `(COUNT(*), e.contract_id) < ($1, $2)`
  abbrev pub rank_cut : Rank RowId → Cursor RowId → Bool
  rank_cut r c = key_lt lt r.event_count r.contract_id c.time c.id

-- `encodeCursor` writes the count as a date, and `Number(decoded.time) || 0` of a date's text is 0:
-- the cursor is kept as it is read back.
unfoldable pub encode_rank : {RowId : Type 0} → Rank RowId → Cursor RowId
encode_rank r = record { id = r.contract_id; time = 0 }

unfoldable pub has_date : {RowId : Type 0} → (ℕ → Bool) → Option (Rank RowId) → Bool
has_date is_date none = true
has_date is_date (some r) = is_date r.event_count

-- Whether the cursor can be written, where there is one.
unfoldable pub cursor_is_date : {RowId : Type 0} → (ℕ → Bool) → ℤ → List (Rank RowId) → Bool
cursor_is_date is_date limit rows =
    if ltb_ℤ limit (pos (length rows)) then has_date is_date (last_row (pop rows)) else true

unfoldable pub capped : Option ℤ → ℤ
capped limit = min_ℤ (max_ℤ (number_or (pos 10) limit) (pos 1)) (pos 50)

-- `is_date`: whether `new Date` reads the count as a date.
unfoldable pub get_leaderboard :
    {RowId : Type 0} (is_date : ℕ → Bool) (dec : Discrete RowId) (lt : RowId → RowId → Bool)
    → Option ℤ
    → Option (Cursor RowId)
    → Option ℤ
    → List RowId
    → Dict RowId RowId
    → Outcome Fault (QueryPage (Rank RowId) (Cursor RowId))
get_leaderboard is_date dec lt limit cursor page events contracts =
    let n = capped limit in
    let p = number_or (pos 1) page in
    let ranks = map (with_name dec contracts) (group_events dec events) in
    select_page (rank_before lt) (rank_cut lt) encode_rank (n +ℤ pos 1) (offset_of cursor p n)
      cursor ranks
    >>= λ rows.
        if cursor_is_date is_date n rows
        then returned (page_of (rank_before lt) (rank_cut lt) encode_rank (length ranks) n p rows)
        else thrown invalid_time
