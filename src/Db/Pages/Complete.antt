-- ===== src/Db/Pages/Complete.antt =====
-- A client that follows the cursors of `getMarkets` or `getBets` (indexer/src/db.js) reads the
-- whole table.
use pero_j.Base.{
  ℕ, suc, ◌%◌, Bool, true, false, ◌⊎◌, inl, inr, ◌≢◌, Option, none, some, List, [], ◌∷◌, ◌≡◌, refl,
  sym, ap, ◌∙◌, arith, length, All, Bool-cases, ◌≤◌,
}
use pero_j.Base.Int.{ℤ, pos, ◌≤ℤ◌, pos_part, pos_of_nonneg}
use pero_j.Db.Order.{where_rows, All-where, order_by, IsTable, length-order_by}
use pero_j.Db.Pages.{
  MarketEntry, BetEntry, Cursor, Reach, key_lt, market_before, market_cut, bet_before, bet_cut,
  encode_market, encode_bet, iso_time, get_markets, get_bets, bets_of, limit_num, page_of, selected,
  offset_of, number_or,
}
use pero_j.Db.Pages.Walk.{walk, get_page, walk_rest, page_lem}

-- The order of the ids in the database.
pub record IsOrder {RowId : Type 0} (lt : RowId → RowId → Bool) : Type 0 where
  pub irrefl : (i : RowId) → lt i i ≡ false
  pub trans : (i j k : RowId) → lt i j ≡ true → lt j k ≡ true → lt i k ≡ true
  pub total : (i j : RowId) → i ≢ j → (lt i j ≡ true) ⊎ (lt j i ≡ true)

abbrev pub online : Reach
online = record { count_answers = true; select_answers = true }

-- A time in whole milliseconds.
abbrev pub IsWhole : ℕ → Type 0
IsWhole micros = micros % 1000 ≡ 0

iso_time-IsWhole : (t : ℕ) → IsWhole t → iso_time t ≡ t
unfolding iso_time
iso_time-IsWhole t h = omega arith

-- The id is the primary key.
unfoldable pub IsKeyed : {R RowId : Type 0} → (R → RowId) → List R → Type 0
IsKeyed id_of [] = Unit
IsKeyed id_of (r ∷ rows) = All (λ s. id_of r ≢ id_of s) rows × IsKeyed id_of rows

module _ {RowId : Type 0} (lt : RowId → RowId → Bool) where
  -- Reading all pages from the first one, if there are at most one more than there are rows; `none`
  -- if after so many pages there is still a cursor.
  unfoldable pub read_markets :
      Option ℤ → List (MarketEntry RowId) → Option (List (MarketEntry RowId))
  read_markets limit table =
      walk (λ c. let p = get_markets lt online limit c none table in (p.items, p.next_cursor))
        (suc (length table)) none

  unfoldable pub read_bets :
      (RowId → RowId → Bool)
      → Option RowId
      → Option ℤ
      → List (BetEntry RowId)
      → Option (List (BetEntry RowId))
  read_bets same market limit table =
      walk
        (λ c. let p = get_bets lt same online market limit c none table in (p.items, p.next_cursor))
        (suc (length (bets_of lt same market table))) none

pub walk_same :
    {R C : Type 0} (f g : Option C → List R × Option C) (fuel : ℕ) (c : Option C)
    → ((d : Option C) → f d ≡ g d)
    → walk f fuel c ≡ walk g fuel c
walk_same f g fuel c same = let p : f ≡ g = λ i d. same d i in ap (λ get. walk get fuel c) p

module _ {RowId : Type 0} (lt : RowId → RowId → Bool) (laws : IsOrder lt) where
  pub key_irrefl : (t : ℕ) (i : RowId) → key_lt lt t i t i ≡ false
  unfolding key_lt
  key_irrefl t i = ground (arith, laws.irrefl i)

  pub key_trans :
      (t u v : ℕ) (i j k : RowId)
      → key_lt lt t i u j ≡ true
      → key_lt lt u j v k ≡ true
      → key_lt lt t i v k ≡ true
  unfolding key_lt
  key_trans t u v i j k h g = ground (arith, laws.trans i j k)

  key_total :
      (t u : ℕ) (i j : RowId) → i ≢ j → (key_lt lt t i u j ≡ true) ⊎ (key_lt lt u j t i ≡ true)
  unfolding key_lt
  key_total t u i j h = ground (arith, laws.total i j h)

  pairs :
      {R : Type 0} (id_of : R → RowId) (time : R → ℕ) (r : R) (rows : List R)
      → All (λ s. id_of r ≢ id_of s) rows
      → All
          (λ s.
            (key_lt lt (time s) (id_of s) (time r) (id_of r) ≡ true)
            ⊎ (key_lt lt (time r) (id_of r) (time s) (id_of s) ≡ true))
          rows
  pairs id_of time r [] h = tt
  pairs id_of time r (s ∷ rows) h = (
    key_total (time s) (time r) (id_of s) (id_of r) (λ p. h.0 (sym p)),
    pairs id_of time r rows h.1,
  )

  pub IsTable_lem :
      {R : Type 0} (id_of : R → RowId) (time : R → ℕ) (rows : List R)
      → IsKeyed id_of rows
      → IsTable (λ a b. key_lt lt (time a) (id_of a) (time b) (id_of b)) rows
  unfolding IsTable IsKeyed
  IsTable_lem id_of time [] h = tt
  IsTable_lem id_of time (r ∷ rows) h =
      (pairs id_of time r rows h.0, IsTable_lem id_of time rows h.1)

  walk_keyed :
      {R : Type 0} (id_of : R → RowId) (time : R → ℕ) (n : ℕ) (rows : List R)
      → 1 ≤ n
      → IsKeyed id_of rows
      → All (λ r. IsWhole (time r)) rows
      → walk {C = Cursor RowId}
          (get_page
            (λ a b. key_lt lt (time a) (id_of a) (time b) (id_of b))
            (λ r c. key_lt lt (time r) (id_of r) c.time c.id)
            (λ r. record { id = id_of r; time = iso_time (time r) })
            n
            rows)
          (suc (length rows))
          none
        ≡ some (order_by (λ a b. key_lt lt (time a) (id_of a) (time b) (id_of b)) rows)
  unfolding selected
  walk_keyed id_of time n rows at_least keyed whole =
      walk_rest _ _ _ (λ a b c h g. key_trans _ _ _ _ _ _ h g) (λ a. key_irrefl _ _) rows
        (IsTable_lem id_of time rows keyed) (λ r. IsWhole (time r)) whole
        (λ r l w. ap (λ t. key_lt lt (time r) (id_of r) t (id_of l)) (iso_time-IsWhole (time l) w))
        n at_least (length rows) [] _ none
        (omega
          (arith, length-order_by (λ a b. key_lt lt (time a) (id_of a) (time b) (id_of b)) rows))
        refl refl

  page_markets :
      (limit : Option ℤ) (n : ℕ) (table : List (MarketEntry RowId)) (c : Option (Cursor RowId))
      → limit_num (pos 20) limit ≡ pos n
      → ◌≡◌ {A = List (MarketEntry RowId) × Option (Cursor RowId)}
          (
            (get_markets lt online limit c none table).items,
            (get_markets lt online limit c none table).next_cursor,
          )
          (get_page (market_before lt) (market_cut lt) encode_market n table c)
  unfolding get_markets page_of offset_of number_or
  page_markets limit n table none e =
      rw e (page_lem (market_before lt) (market_cut lt) encode_market n table none)
  page_markets limit n table (some c) e =
      rw e (page_lem (market_before lt) (market_cut lt) encode_market n table (some c))

  -- Where the ids are unique and the times whole milliseconds, a client that starts at the first
  -- page of the markets and follows `next_cursor` reads each market exactly once, in the order of
  -- the query, and comes to an end after at most one page more than there are markets, whatever
  -- page length it asks for, if that is at least one.
  pub get_markets_complete :
      (limit : Option ℤ) (table : List (MarketEntry RowId))
      → IsKeyed (λ m. m.id) table
      → All (λ m. IsWhole m.created_at) table
      → pos 1 ≤ℤ limit_num (pos 20) limit
      → read_markets lt limit table ≡ some (order_by (market_before lt) table)
  unfolding read_markets encode_market
  get_markets_complete limit table keyed whole at_least =
      let n = pos_part (limit_num (pos 20) limit) in
      let e = pos_of_nonneg (limit_num (pos 20) limit) (omega arith) in
      walk_same _ _ (suc (length table)) none (λ c. page_markets limit n table c e)
      ∙ walk_keyed (λ m. m.id) (λ m. m.created_at) n table (omega arith) keyed whole

  page_bets :
      (same : RowId → RowId → Bool) (market : Option RowId) (limit : Option ℤ) (n : ℕ)
      (table : List (BetEntry RowId)) (c : Option (Cursor RowId))
      → limit_num (pos 20) limit ≡ pos n
      → ◌≡◌ {A = List (BetEntry RowId) × Option (Cursor RowId)}
          (
            (get_bets lt same online market limit c none table).items,
            (get_bets lt same online market limit c none table).next_cursor,
          )
          (get_page (bet_before lt) (bet_cut lt) encode_bet n (bets_of lt same market table) c)
  unfolding get_bets page_of offset_of number_or
  page_bets same market limit n table none e =
      rw e (page_lem (bet_before lt) (bet_cut lt) encode_bet n (bets_of lt same market table) none)
  page_bets same market limit n table (some c) e =
      rw e
        (page_lem (bet_before lt) (bet_cut lt) encode_bet n (bets_of lt same market table) (some c))

  where-IsKeyed :
      {R : Type 0} (id_of : R → RowId) (p : R → Bool) (rows : List R)
      → IsKeyed id_of rows
      → IsKeyed id_of (where_rows p rows)
  unfolding where_rows IsKeyed
  where-IsKeyed id_of p [] h = tt
  where-IsKeyed id_of p (r ∷ rows) h =
      let a = All-where (λ s. id_of r ≢ id_of s) p rows h.0 in
      let i = where-IsKeyed id_of p rows h.1 in
      elim (Bool-cases (p r)) [ inl e ↦ rw e (a, i) | inr e ↦ rw e i ]

  -- Where the ids are unique and the times whole milliseconds, a client that starts at the first
  -- page of the bets, of one market or of all, and follows `next_cursor` reads each of these bets
  -- exactly once, in the order of the query, and comes to an end after at most one page more than
  -- there are such bets, whatever page length it asks for, if that is at least one.
  pub get_bets_complete :
      (same : RowId → RowId → Bool) (market : Option RowId) (limit : Option ℤ)
      (table : List (BetEntry RowId))
      → IsKeyed (λ b. b.id) table
      → All (λ b. IsWhole b.created_at) table
      → pos 1 ≤ℤ limit_num (pos 20) limit
      → read_bets lt same market limit table
        ≡ some (order_by (bet_before lt) (bets_of lt same market table))
  unfolding read_bets encode_bet bets_of
  get_bets_complete same none limit table keyed whole at_least =
      let n = pos_part (limit_num (pos 20) limit) in
      let e = pos_of_nonneg (limit_num (pos 20) limit) (omega arith) in
      walk_same _ _ (suc (length table)) none (λ c. page_bets same none limit n table c e)
      ∙ walk_keyed (λ b. b.id) (λ b. b.created_at) n table (omega arith) keyed whole
  get_bets_complete same (some market) limit table keyed whole at_least =
      let n = pos_part (limit_num (pos 20) limit) in
      let e = pos_of_nonneg (limit_num (pos 20) limit) (omega arith) in
      let bets = where_rows (λ b. same b.market_id market) table in
      walk_same _ _ (suc (length bets)) none (λ c. page_bets same (some market) limit n table c e)
      ∙ walk_keyed (λ b. b.id) (λ b. b.created_at) n bets (omega arith)
          (where-IsKeyed (λ b. b.id) _ table keyed) (All-where _ _ table whole)
