-- ===== src/Db/Leaderboard/Ranked.antt =====
-- The pages of `getLeaderboard` of indexer/src/db.js: the first one is right, and there is no second.
use pero_j.Base.{
  ℕ, Bool, true, Option, none, some, List, [], map, ◌≡◌, ◌<◌, ◌⊎◌, arith, Outcome, returned, thrown,
  if◌then◌else◌, length, take,
}
use pero_j.Base.Int.{ℤ, pos, ltb_ℤ}
use pero_j.Base.Dict.{Dict}
use pero_j.Db.Pages.{QueryPage, Cursor, Fault, invalid_time, page_of}
use pero_j.Db.Leaderboard.{
  Rank, group_events, with_name, rank_before, rank_cut, encode_rank, cursor_is_date,
}

module _ {RowId : Type 0} (dec : Discrete RowId) where
  unfoldable pub ranks_of : List RowId → Dict RowId RowId → List (Rank RowId)
  ranks_of events contracts = map (with_name dec contracts) (group_events dec events)

-- What a call gives: the first page, nothing more, or the refusal of a count as a date.
unfoldable pub EndsAtFirst :
    {RowId : Type 0}
    → (Option ℤ
        → Option (Cursor RowId)
        → Option ℤ
        → Outcome Fault (QueryPage (Rank RowId) (Cursor RowId)))
    → ℕ
    → List (Rank RowId)
    → Outcome Fault (QueryPage (Rank RowId) (Cursor RowId))
    → Type 0
EndsAtFirst get n ranked out =
    ((out ≡ thrown invalid_time) × (n < length ranked))
    ⊎ ((p : QueryPage _ _) × (out ≡ returned p)
        × (p.items ≡ take n ranked)
        × ((c : Cursor _)
            → p.next_cursor ≡ some c
            → (limit page : Option ℤ)
            → (q : QueryPage _ _) × (get limit (some c) page ≡ returned q)
              × (q.items ≡ [])
              × (q.next_cursor ≡ none)))

over : (n k : ℕ) → n < k → ltb_ℤ (pos n) (pos k) ≡ true
over n k h = ground arith

module _ {RowId : Type 0} (is_date : ℕ → Bool) (dec : Discrete RowId) (lt : RowId → RowId → Bool)
    (events : List RowId) (contracts : Dict RowId RowId) where
  abbrev page_rows : ℕ → List (Rank RowId) → ℤ → QueryPage (Rank RowId) (Cursor RowId)
  page_rows n rows page =
      page_of (rank_before lt) (rank_cut lt) encode_rank (length (ranks_of dec events contracts))
        (pos n) page rows

  unfoldable page_or_fault :
      ℕ → List (Rank RowId) → ℤ → Outcome Fault (QueryPage (Rank RowId) (Cursor RowId))
  page_or_fault n rows page =
      if cursor_is_date is_date (pos n) rows
      then returned (page_rows n rows page)
      else thrown invalid_time
