-- ===== src/Db/Events/Tests.antt =====
-- Runs of the event queries of indexer/src/db.js.
use pero_j.Base.{ℕ, Bool, false, none, some, List, [], ◌∷◌, ◌≡◌, refl, ◌≤◌, All, length, returned}
use pero_j.Base.Int.{pos, ◌+ℤ◌, ◌-ℤ◌, ◌*ℤ◌, pos_part}
use pero_j.Base.Codes.{Text, codes}
use pero_j.Db.Order.{where_rows, place, order_by}
use pero_j.Db.Pages.{
  QueryPage, Cursor, number_or, limit_num, offset_of, selected, select_page, pop, last_row,
  encode_last, close_page, page_of, key_lt, iso_time,
}
use pero_j.Db.Search.{
  double_backslashes, escape_wildcards, escape_like_pattern, search_pattern, any_suffix, is_end,
  like_same, like_one, like, is_word_safe, all_word_safe, is_word, is_space,
}
use pero_j.Db.Events.{
  StoredEvent, EventFilter, event_before, event_cut, encode_event, equals_filter, text_matches,
  meets, get_events, get_wallet_events, has_address, ledger_before, at_least_one,
}
use pero_j.Db.Events.Filtered.{IsWanted, IsCount, get_events-IsWanted}

program : Unit {0}
unfolding ◌+ℤ◌ ◌-ℤ◌ ◌*ℤ◌ codes where_rows place order_by number_or limit_num offset_of selected
    select_page pop last_row encode_last close_page page_of key_lt iso_time double_backslashes
    escape_wildcards escape_like_pattern search_pattern any_suffix is_end like_same like_one like
    is_word_safe all_word_safe is_word is_space event_before event_cut encode_event equals_filter
    text_matches meets get_events get_wallet_events has_address ledger_before at_least_one
program = tt

abbrev stored : ℕ → ℕ → ℕ → StoredEvent
stored seq ledger created_at = record {
  seq = seq;
  created_at = created_at;
  row = record {
    contract_id = "C1";
    function = "mint";
    ledger = ledger;
    tx_hash = "t";
    description = "5% minted";
    raw_topics = [];
    raw_data = "1";
    sac_asset = none;
    event_addresses = "G1" ∷ [];
    onchain_seq = none;
  };
}

-- An old ledger that was filled in later: its row is newer.
abbrev table : List StoredEvent
table = stored 1 20 1000 ∷ stored 2 10 2000 ∷ []

abbrev wanted_event : EventFilter
wanted_event = record { contract = "C1"; fn = "mint"; q = "5% " }

abbrev never : Text → Text → Bool
never q d = false

abbrev exact : ℕ → ℕ
exact c = c

abbrev first_page : QueryPage StoredEvent (Cursor ℕ)
first_page = record {
  items = stored 1 20 1000 ∷ [];
  next_cursor = some (record { id = 1; time = 1000 });
  total = 2;
  limit = pos 1;
  page_num = pos 1;
}

first : get_events never exact wanted_event none (some (pos 1)) none table ≡ returned first_page
unfolding program
first = refl

-- The second page misses the row that was filled in.
second :
    get_events never exact wanted_event none (some (pos 1)) first_page.next_cursor table
    ≡ returned
        (record { items = []; next_cursor = none; total = 2; limit = pos 1; page_num = pos 1 })
unfolding program
second = refl

wallet :
    get_wallet_events "G1" (some (pos 2)) (some (pos 1)) table
    ≡ returned
        (record { events = stored 2 10 2000 ∷ []; total = 2; page_num = pos 2; limit = pos 1 })
unfolding program
wallet = refl

get_events-IsWanted_example :
    All (IsWanted never exact wanted_event) first_page.items
    × (length first_page.items ≤ pos_part first_page.limit)
    × (pos_part first_page.limit ≤ 200)
    × IsCount (IsWanted never exact wanted_event) table first_page.total
unfolding program
get_events-IsWanted_example =
    get_events-IsWanted never exact wanted_event none (some (pos 1)) none table first_page refl
