-- ===== src/Db/Events/Filtered.antt =====
-- What a page of `getEvents` of indexer/src/db.js holds.
use Prim.Native.String.{String}
use text.Mathlib.TextEquality.{eq_iff}
use pero_j.Base.Text.{is_empty}
use pero_j.Db.Search.{is_word_safe, contains}
use pero_j.Db.Search.Literal.{search_pattern-contains}
use pero_j.Base.{
  ℕ, ◌+◌, ◌-◌, ◌≤◌, refl, Bool, true, false, Option, none, some, List, [], ◌∷◌, ◌≡◌, ◌⊎◌, sym, ◌∙◌,
  inl, inr, arith, length, drop, All, All-take, All-drop, length-take_le, subst, Outcome, returned,
  thrown, Bool-cases, bind_returned, if◌then◌else◌,
}
use pero_j.Base.Int.{ℤ, pos, ltb_ℤ, ◌+ℤ◌, pos_part}
use pero_j.Base.Codes.{Text, codes}
use pero_j.Db.Order.{where_rows, order_by, All-where, where-All, All-order_by}
use pero_j.Db.Pages.{
  QueryPage, Cursor, Fault, number_or, limit_num, offset_of, select_page, selected, page_of,
  close_page, pop, negative_limit,
}
use pero_j.Db.Events.{
  StoredEvent, EventFilter, event_before, event_cut, encode_event, meets, equals_filter,
  text_matches, get_events,
}

-- A page, taken from what was selected.
page-All :
    (P : StoredEvent → Type 0) (total : ℕ) (n p : ℤ) (rows : List StoredEvent)
    → All P rows
    → All P (page_of event_before event_cut encode_event total n p rows).items
unfolding page_of close_page pop
page-All P total n p rows h = elim (Bool-cases (ltb_ℤ n (pos (length rows)))) [
  | inl e ↦ rw e (All-take P (length rows - 1) rows h)
  | inr e ↦ rw e h
]

few : (n : ℤ) (k : ℕ) → k ≤ pos_part (n +ℤ pos 1) → k - 1 ≤ pos_part n
unfolding ◌+ℤ◌
few n k h = ground arith

page_length :
    (total : ℕ) (n p : ℤ) (rows : List StoredEvent)
    → length rows ≤ pos_part (n +ℤ pos 1)
    → length (page_of event_before event_cut encode_event total n p rows).items ≤ pos_part n
unfolding page_of close_page pop ◌+ℤ◌
page_length total n p rows h = elim (Bool-cases (ltb_ℤ n (pos (length rows)))) [
  | inl e ↦ rw e (omega (arith, length-take_le (length rows - 1) rows, few n (length rows) h))
  | inr e ↦ rw e (ground arith)
]

allowed :
    {R : Type 0} (refused : Bool) (xs rows : List R)
    → ◌≡◌ {A = Outcome Fault (List R)}
        (if refused then thrown negative_limit else returned xs)
        (returned rows)
    → xs ≡ rows
allowed true xs rows h = absurd (cc)
allowed false xs rows h = cc

selected-All :
    (P : StoredEvent → Type 0) (cursor : Option (Cursor ℕ)) (found : List StoredEvent)
    → All P found
    → All P (selected event_before event_cut encode_event cursor found)
unfolding selected
selected-All P none found h = h
selected-All P (some c) found h = All-where P _ found h

-- What a query returns comes from the selected rows, and is no more than its limit.
selected_page :
    (P : StoredEvent → Type 0) (limit offset : ℤ) (cursor : Option (Cursor ℕ))
    (found rows : List StoredEvent)
    → All P found
    → select_page event_before event_cut encode_event limit offset cursor found ≡ returned rows
    → All P rows × (length rows ≤ pos_part limit)
unfolding select_page
selected_page P limit offset cursor found rows h e =
    let chosen =
      order_by event_before (selected event_before event_cut encode_event cursor found) in
    let q = allowed _ _ rows e in
    let a = All-order_by event_before P _ (selected-All P cursor found h) in
    (
      subst (All P) q (All-take P (pos_part limit) _ (All-drop P (pos_part offset) chosen a)),
      subst (λ xs. length xs ≤ pos_part limit) q
          (length-take_le (pos_part limit) (drop (pos_part offset) chosen)),
    )

of_returned : {A : Type 0} (a b : A) → ◌≡◌ {A = Outcome Fault A} (returned a) (returned b) → a ≡ b
of_returned a b h = cc

limit_le : (limit : Option ℤ) → pos_part (limit_num (pos 25) limit) ≤ 200
unfolding limit_num number_or
limit_le none = omega arith
limit_le (some n) = ground arith

-- The event has the contract and the function of the request, where it names them. If it searches
-- words, the database's word search finds them in the description; if it searches another text, the
-- description contains it up to case.
unfoldable pub IsWanted : (Text → Text → Bool) → (ℕ → ℕ) → EventFilter → StoredEvent → Type 0
IsWanted word_match fold f e =
    ((f.contract ≡ "") ⊎ (e.row.contract_id ≡ f.contract))
    × ((f.fn ≡ "") ⊎ (e.row.function ≡ f.fn))
    × ((f.q ≡ "")
        ⊎ (((is_word_safe (codes f.q) ≡ true)
              × (word_match (codes f.q) (codes e.row.description) ≡ true))
            ⊎ ((is_word_safe (codes f.q) ≡ false)
                × (contains fold (codes f.q) (codes e.row.description) ≡ true))))

equals_lem :
    (wanted actual : String)
    → equals_filter wanted actual ≡ true
    → (wanted ≡ "") ⊎ (actual ≡ wanted)
unfolding equals_filter
equals_lem wanted actual h = elim (Bool-cases (is_empty wanted)) [
  | inl e ↦ inl ((eq_iff wanted "").0 e)
  | inr e ↦ inr ((eq_iff actual wanted).0 (ground (arith, e, h)))
]

meets-IsWanted :
    (word_match : Text → Text → Bool) (fold : ℕ → ℕ) (f : EventFilter) (e : StoredEvent)
    → meets word_match fold f e ≡ true
    → IsWanted word_match fold f e
unfolding meets IsWanted text_matches
meets-IsWanted word_match fold f e h = (
  equals_lem f.contract e.row.contract_id (ground (arith, h)),
  equals_lem f.fn e.row.function (ground (arith, h)),
  elim (Bool-cases (is_empty f.q)) [
    | inl q ↦ inl ((eq_iff f.q "").0 q)
    | inr q ↦ elim (Bool-cases (is_word_safe (codes f.q))) [
      | inl w ↦ inr (inl (w, ground (arith, h, q, w)))
      | inr w ↦ inr (
          inr (
            w,
            sym (search_pattern-contains fold (codes f.q) (codes e.row.description))
                ∙ ground (arith, h, q, w),
          ))
    ]
  ],
)

words_met :
    (word_match : Text → Text → Bool) (fold : ℕ → ℕ) (q description : String)
    → ((is_word_safe (codes q) ≡ true) × (word_match (codes q) (codes description) ≡ true))
      ⊎ ((is_word_safe (codes q) ≡ false) × (contains fold (codes q) (codes description) ≡ true))
    → text_matches word_match fold (codes q) (codes description) ≡ true
unfolding text_matches
words_met word_match fold q description (inl (w, m)) = rw w m
words_met word_match fold q description (inr (w, c)) =
    rw w (search_pattern-contains fold (codes q) (codes description) ∙ c)

equals_met :
    (wanted actual : String)
    → (wanted ≡ "") ⊎ (actual ≡ wanted)
    → equals_filter wanted actual ≡ true
unfolding equals_filter
equals_met wanted actual (inl e) = let h = (eq_iff wanted "").1 e in ground (arith, h)
equals_met wanted actual (inr e) = let h = (eq_iff actual wanted).1 e in ground (arith, h)

IsWanted-meets :
    (word_match : Text → Text → Bool) (fold : ℕ → ℕ) (f : EventFilter) (e : StoredEvent)
    → IsWanted word_match fold f e
    → meets word_match fold f e ≡ true
unfolding meets IsWanted
IsWanted-meets word_match fold f e (c, n, inl q) =
    let a = equals_met f.contract e.row.contract_id c in
    let b = equals_met f.fn e.row.function n in
    let d = (eq_iff f.q "").1 q in ground (arith, a, b, d)
IsWanted-meets word_match fold f e (c, n, inr q) =
    let a = equals_met f.contract e.row.contract_id c in
    let b = equals_met f.fn e.row.function n in
    let d = words_met word_match fold f.q e.row.description q in ground (arith, a, b, d)

-- How many elements have a property.
unfoldable pub IsCount : {A : Type 0} → (A → Type 0) → List A → ℕ → Type 0
IsCount P [] n = n ≡ 0
IsCount P (x ∷ xs) n =
    (P x × ((m : ℕ) × (n ≡ m + 1) × IsCount P xs m)) ⊎ ((P x → ⊥) × IsCount P xs n)

found-IsCount :
    (word_match : Text → Text → Bool) (fold : ℕ → ℕ) (f : EventFilter) (table : List StoredEvent)
    → IsCount
        (IsWanted word_match fold f)
        table
        (length (where_rows (meets word_match fold f) table))
unfolding IsCount where_rows
found-IsCount word_match fold f [] = refl
found-IsCount word_match fold f (e ∷ table) =
    let rest = found-IsCount word_match fold f table in
    elim (Bool-cases (meets word_match fold f e)) [
      | inl y ↦ rw y (inl (meets-IsWanted word_match fold f e y, (_, omega arith, rest)))
      | inr n ↦
          rw n (inr ((λ w. let y = IsWanted-meets word_match fold f e w in absurd (cc)), rest))
    ]

All-IsWanted :
    (word_match : Text → Text → Bool) (fold : ℕ → ℕ) (f : EventFilter) (es : List StoredEvent)
    → All (λ e. meets word_match fold f e ≡ true) es
    → All (IsWanted word_match fold f) es
All-IsWanted word_match fold f [] h = tt
All-IsWanted word_match fold f (e ∷ es) h =
    (meets-IsWanted word_match fold f e h.0, All-IsWanted word_match fold f es h.1)

-- Every event of a page that `getEvents` returns is wanted: it has the contract and the function of
-- the request, where it names them, and its description matches the words or contains the text that
-- it searches. There are no more of them than the limit that the page names, which is at most 200,
-- whatever page, limit and cursor the request names. The total is the number of all wanted events.
pub get_events-IsWanted :
    (word_match : Text → Text → Bool) (fold : ℕ → ℕ) (f : EventFilter) (page limit : Option ℤ)
    (cursor : Option (Cursor ℕ)) (table : List StoredEvent) (p : QueryPage StoredEvent (Cursor ℕ))
    → get_events word_match fold f page limit cursor table ≡ returned p
    → All (IsWanted word_match fold f) p.items
      × (length p.items ≤ pos_part p.limit)
      × (pos_part p.limit ≤ 200)
      × IsCount (IsWanted word_match fold f) table p.total
unfolding get_events page_of
get_events-IsWanted word_match fold f page limit cursor table p h =
    let n = limit_num (pos 25) limit in
    let found = where_rows (meets word_match fold f) table in
    let answer =
      select_page event_before event_cut encode_event (n +ℤ pos 1)
        (offset_of cursor (number_or (pos 1) page) n) cursor found in
    let b = bind_returned answer _ p h in
    let rows = b.0 in
    let q = of_returned _ p b.2 in
    let whole =
      page_of event_before event_cut encode_event (length found) n (number_or (pos 1) page) rows in
    let s = selected_page _ (n +ℤ pos 1) _ cursor found rows (where-All _ table) b.1 in
    let r : length whole.items ≤ pos_part whole.limit =
      page_length (length found) n (number_or (pos 1) page) rows s.1 in
    (
      All-IsWanted word_match fold f p.items (
          subst (λ x. All (λ e. meets word_match fold f e ≡ true) x.items) q
            (page-All _ (length found) n (number_or (pos 1) page) rows s.0)),
      subst (λ x. length x.items ≤ pos_part x.limit) q r,
      subst (λ x. pos_part x.limit ≤ 200) q (limit_le limit),
      subst (λ x. IsCount (IsWanted word_match fold f) table x.total) q
          (found-IsCount word_match fold f table),
    )
