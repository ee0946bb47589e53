-- ===== src/Db/Pages/Tests.antt =====
-- Runs of the pages of indexer/src/db.js, on numbers for ids.
use pero_j.Base.{ℕ, some, List, [], ◌∷◌, ◌≡◌, refl, arith, ltb}
use pero_j.Base.Int.{pos, ◌+ℤ◌}
use pero_j.Db.Order.{where_rows, place, order_by}
use pero_j.Db.Pages.{
  MarketEntry, BetEntry, market_before, bets_of, limit_num, number_or, get_markets, page_of,
  close_page, pop, last_row, encode_last, select_page, rows_or_none, offset_of, selected, iso_time,
  key_lt, encode_market,
}
use pero_j.Db.Pages.Walk.{walk, in_front}
use pero_j.Db.Pages.Complete.{IsOrder, IsKeyed, read_markets, read_bets, get_markets_complete}

below : IsOrder ltb
below = record {
  irrefl = λ i. ground arith;
  trans = λ i j k h g. ground arith;
  total = λ i j h. ground arith;
}

abbrev market : ℕ → ℕ → MarketEntry ℕ
market i t = record { id = i; created_at = t }

abbrev bet : ℕ → ℕ → ℕ → BetEntry ℕ
bet i m t = record { id = i; market_id = m; created_at = t }

abbrev table : List (MarketEntry ℕ)
table = market 1 5000 ∷ market 2 7000 ∷ market 3 5000 ∷ []

abbrev bets : List (BetEntry ℕ)
bets = bet 1 9 5000 ∷ bet 2 8 7000 ∷ bet 3 9 6000 ∷ []

program : Unit {0}
unfolding ◌+ℤ◌ read_markets read_bets order_by IsKeyed limit_num number_or bets_of where_rows place
    walk in_front get_markets page_of close_page pop last_row encode_last select_page rows_or_none
    offset_of selected iso_time key_lt encode_market
program = tt

get_markets_complete_example :
    read_markets ltb (some (pos 2)) table ≡ some (order_by (market_before ltb) table)
unfolding program
get_markets_complete_example =
    get_markets_complete ltb below (some (pos 2)) table
      (
        (λ p. absurd (omega arith), (λ p. absurd (omega arith), tt)),
        ((λ p. absurd (omega arith), tt), (tt, tt)),
      )
      (refl, (refl, (refl, tt))) (omega arith)

-- Two markets of one millisecond: the second page starts below both.
skipped_market :
    read_markets ltb (some (pos 1)) (market 1 5900 ∷ market 2 5400 ∷ []) ≡ some (market 1 5900 ∷ [])
unfolding program
skipped_market = refl
