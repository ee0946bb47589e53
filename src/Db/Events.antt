-- ===== src/Db/Events.antt =====
-- The event queries of indexer/src/db.js: `getEvents`, `getEvent` and `getWalletEvents`. Words are
-- searched by PostgreSQL's `plainto_tsquery`, which is the argument `word_match`.
pub mod Filtered
mod Tests
use Prim.Native.String.{String}
use text.Mathlib.Text.{◌==◌ as str_eq}
use pero_j.Base.{
  ℕ, Bool, true, false, ◌&&◌, ◌||◌, Option, none, some, List, [], ◌∷◌, ltb, ◌==◌, if◌then◌else◌,
  length, Outcome, returned, ◌>>=◌,
}
use pero_j.Base.Int.{ℤ, pos, negsuc, ◌+ℤ◌, ◌-ℤ◌, ◌*ℤ◌}
use pero_j.Base.Text.{is_empty}
use pero_j.Base.Codes.{Text, codes}
use pero_j.Db.Order.{where_rows, order_by}
use pero_j.Db.Ledger.{EventRow}
use pero_j.Db.Pages.{
  QueryPage, Cursor, Fault, number_or, limit_num, offset_of, select_page, page_of, key_lt, iso_time,
  min_ℤ, max_ℤ, max_page,
}
use pero_j.Db.Search.{is_word_safe, search_pattern, like}

-- A row of the table `events`.
pub record StoredEvent : Type 0 where
  pub seq : ℕ
  pub created_at : ℕ
  pub row : EventRow

-- An absent filter is the empty text.
pub record EventFilter : Type 0 where
  pub contract : String
  pub fn : String
  pub q : String

unfoldable pub event_before : StoredEvent → StoredEvent → Bool
event_before a b = key_lt ltb a.row.ledger a.seq b.row.ledger b.seq

-- `(created_at, seq) < (time, id)`
unfoldable pub event_cut : StoredEvent → Cursor ℕ → Bool
event_cut e c = key_lt ltb e.created_at e.seq c.time c.id

unfoldable pub encode_event : StoredEvent → Cursor ℕ
encode_event e = record { id = e.seq; time = iso_time e.created_at }

unfoldable pub equals_filter : String → String → Bool
equals_filter wanted actual = is_empty wanted || str_eq actual wanted

module _ (word_match : Text → Text → Bool) (fold : ℕ → ℕ) where
  unfoldable pub text_matches : Text → Text → Bool
  text_matches q description =
      if is_word_safe q then word_match q description else like fold (search_pattern q) description

  unfoldable pub meets : EventFilter → StoredEvent → Bool
  meets f e =
      equals_filter f.contract e.row.contract_id
      && (equals_filter f.fn e.row.function
          && (is_empty f.q || text_matches (codes f.q) (codes e.row.description)))

  unfoldable pub get_events :
      EventFilter
      → Option ℤ
      → Option ℤ
      → Option (Cursor ℕ)
      → List StoredEvent
      → Outcome Fault (QueryPage StoredEvent (Cursor ℕ))
  get_events f page limit cursor table =
      let n = limit_num (pos 25) limit in
      let p = number_or (pos 1) page in
      let found = where_rows (meets f) table in
      select_page event_before event_cut encode_event (n +ℤ pos 1) (offset_of cursor p n) cursor
        found
      >>= λ rows. returned (page_of event_before event_cut encode_event (length found) n p rows)

unfoldable pub get_event : ℕ → List StoredEvent → Option StoredEvent
get_event seq [] = none
get_event seq (e ∷ table) = let rest = get_event seq table in if e.seq == seq then some e else rest

unfoldable pub has_address : String → List String → Bool
has_address a [] = false
has_address a (b ∷ bs) = str_eq a b || has_address a bs

unfoldable pub ledger_before : StoredEvent → StoredEvent → Bool
ledger_before a b = ltb a.row.ledger b.row.ledger

-- What is not a finite number falls back; the others are whole and at least one.
unfoldable pub at_least_one : ℤ → Option ℤ → ℤ
at_least_one fallback none = fallback
at_least_one fallback (some n) = max_ℤ (pos 1) n

pub record WalletPage : Type 0 where
  pub events : List StoredEvent
  pub total : ℕ
  pub page_num : ℤ
  pub limit : ℤ

unfoldable pub get_wallet_events :
    String → Option ℤ → Option ℤ → List StoredEvent → Outcome Fault WalletPage
get_wallet_events address page limit table =
    let p = at_least_one (pos 1) page in
    let n = min_ℤ max_page (at_least_one (pos 25) limit) in
    let found = where_rows (λ e. has_address address e.row.event_addresses) table in
    select_page ledger_before event_cut encode_event n ((p -ℤ pos 1) *ℤ n) none found >>= λ rows.
    returned (record { events = rows; total = length found; page_num = p; limit = n })
