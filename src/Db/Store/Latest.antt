-- ===== src/Db/Store/Latest.antt =====
-- Which oracle submission of a market is the latest: indexer/src/db.js.
use pero_j.Base.{
  ℕ, suc, if◌then◌else◌, ◌≤◌, ◌<◌, Bool, true, false, Option, some, List, [], ◌∷◌, ◌++◌, ◌≡◌, refl,
  ap, ◌∙◌, arith, All, inl, inr, Bool-cases,
}
use pero_j.Base.Codes.{Text, eq_text, eq_text_self}
use pero_j.Db.Order.{where_rows, place, order_by}
use pero_j.Db.Store.{
  Submission, Submissions, or_default, pending, insert_oracle_submission, submission_before,
  first_row, get_latest_oracle_submission,
}

-- The ids are below the next one of the sequence.
abbrev pub IsNumbered : Submissions → Type 0
IsNumbered table = All (λ s. s.id < table.next_id) table.rows

of_some : (a b : Submission) → ◌≡◌ {A = Option Submission} (some a) (some b) → a ≡ b
of_some a b h = cc

-- A row that every other row is before comes first, wherever it stands.
first_placed :
    (r s : Submission) (rows : List Submission)
    → first_row rows ≡ some s
    → submission_before r s ≡ true
    → first_row (place submission_before r rows) ≡ some s
unfolding first_row place
first_placed r s [] h k = absurd (cc)
first_placed r s (t ∷ rows) h k =
    let q = of_some t s h in
    let b : submission_before r t ≡ true = ap (submission_before r) q ∙ k in rw b h

first_ordered :
    (rows : List Submission) (s : Submission)
    → All (λ r. submission_before r s ≡ true) rows
    → first_row (order_by submission_before (rows ++ s ∷ [])) ≡ some s
unfolding first_row order_by place
first_ordered [] s h = refl
first_ordered (r ∷ rows) s h =
    first_placed r s (order_by submission_before (rows ++ s ∷ [])) (first_ordered rows s h.1) h.0

where-append :
    {R : Type 0} (p : R → Bool) (rows : List R) (s : R)
    → where_rows p (rows ++ s ∷ [])
      ≡ (if p s then where_rows p rows ++ s ∷ [] else where_rows p rows)
unfolding where_rows
where-append p [] s = ground arith
where-append p (r ∷ rows) s = ground (arith, where-append p rows s)

-- What the rows of a market that are no later and older have in common.
older :
    (market : Text) (s : Submission) (rows : List Submission)
    → All (λ r. r.id < s.id) rows
    → All (λ r. (eq_text r.market_id market ≡ true → r.ledger ≤ s.ledger)) rows
    → All (λ r. submission_before r s ≡ true) (where_rows (λ r. eq_text r.market_id market) rows)
unfolding where_rows submission_before
older market s [] h k = tt
older market s (r ∷ rows) h k = elim (Bool-cases (eq_text r.market_id market)) [
  | inl e ↦ rw e (let le : r.ledger ≤ s.ledger = k.0 e in ground arith, older market s rows h.1 k.1)
  | inr e ↦ rw e (older market s rows h.1 k.1)
]

numbered_on :
    (n : ℕ) (rows : List Submission) (s : Submission)
    → All (λ r. r.id < n) rows
    → s.id ≡ n
    → All (λ r. r.id < suc n) (rows ++ s ∷ [])
numbered_on n [] s h e = (omega arith, tt)
numbered_on n (r ∷ rows) s h e = (omega (arith, h.0), numbered_on n rows s h.1 e)

-- If the ids in the table are below its next id, they stay so when a submission is inserted. A
-- submission at a ledger no lower than those of its market is then the market's latest one, and
-- the latest submission of every other market stays the same.
pub get_latest-insert :
    (market : Text) (submitter outcome : Text) (ledger : ℕ) (tx_hash status : Option Text)
    (table : Submissions)
    → IsNumbered table
    → All (λ r. (eq_text r.market_id market ≡ true → r.ledger ≤ ledger)) table.rows
    → let r = insert_oracle_submission market submitter outcome ledger tx_hash status table in
      IsNumbered r.1
      × ((s : Submission) × (get_latest_oracle_submission market r.1 ≡ some s)
          × (s.id ≡ r.0)
          × (s.outcome ≡ outcome))
      × ((other : Text)
          → eq_text market other ≡ false
          → get_latest_oracle_submission other r.1 ≡ get_latest_oracle_submission other table)
unfolding insert_oracle_submission get_latest_oracle_submission
get_latest-insert market submitter outcome ledger tx_hash status table numbered late =
    let s : Submission = record {
      id = table.next_id;
      market_id = market;
      submitter = submitter;
      outcome = outcome;
      ledger = ledger;
      tx_hash = tx_hash;
      status = or_default pending status;
    } in
    let o = older market s table.rows numbered late in
    (
      numbered_on table.next_id table.rows s numbered refl,
      (
        s,
        rw (where-append (λ r. eq_text r.market_id market) table.rows s) (
            rw (eq_text_self market)
              (first_ordered (where_rows (λ r. eq_text r.market_id market) table.rows) s o)),
        refl,
        refl,
      ),
      (λ other e. rw (where-append (λ r. eq_text r.market_id other) table.rows s) (rw e refl)),
    )
