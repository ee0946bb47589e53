-- ===== src/Db/Leaderboard/Tests.antt =====
-- Runs of the leaderboard of indexer/src/db.js, on numbers for ids.
use native.Mathlib.Decide.{ℕ_discrete}
use pero_j.Base.{ℕ, Bool, true, false, none, some, List, [], ◌∷◌, ◌≡◌, refl, returned, thrown, ltb}
use pero_j.Base.Int.{pos, ◌+ℤ◌}
use pero_j.Base.Dict.{Dict}
use pero_j.Db.Order.{where_rows, place, order_by}
use pero_j.Db.Pages.{
  number_or, offset_of, selected, select_page, pop, last_row, encode_last, close_page, page_of,
  key_lt, QueryPage, Cursor, invalid_time,
}
use pero_j.Db.Leaderboard.{
  Rank, count_event, group_events, or_id, with_name, encode_rank, capped, get_leaderboard, has_date,
  cursor_is_date,
}
use pero_j.Db.Leaderboard.Ranked.{ranks_of}

program : Unit {0}
unfolding ◌+ℤ◌ ℕ_discrete where_rows place order_by number_or offset_of selected select_page pop
    last_row encode_last close_page page_of key_lt count_event group_events or_id with_name
    encode_rank has_date cursor_is_date capped get_leaderboard ranks_of
program = tt

abbrev events : List ℕ
events = 7 ∷ 5 ∷ 7 ∷ 9 ∷ 7 ∷ 9 ∷ []

abbrev contracts : Dict ℕ ℕ
contracts = (9, 90) ∷ []

abbrev rank : ℕ → ℕ → ℕ → Rank ℕ
rank id name n = record { contract_id = id; name = name; event_count = n }

abbrev any_date : ℕ → Bool
any_date n = true

abbrev no_date : ℕ → Bool
no_date n = false

abbrev first_page : QueryPage (Rank ℕ) (Cursor ℕ)
first_page = record {
  items = rank 7 7 3 ∷ rank 9 90 2 ∷ [];
  next_cursor = some (record { id = 9; time = 0 });
  total = 3;
  limit = pos 2;
  page_num = pos 1;
}

test_first :
    get_leaderboard any_date ℕ_discrete ltb (some (pos 2)) none none events contracts
    ≡ returned first_page
unfolding program
test_first = refl

test_no_date :
    get_leaderboard no_date ℕ_discrete ltb (some (pos 2)) none none events contracts
    ≡ thrown invalid_time
unfolding program
test_no_date = refl
