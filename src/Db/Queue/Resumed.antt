-- ===== src/Db/Queue/Resumed.antt =====
-- The indexer's cursor is read back as it was written: indexer/src/db.js.
use pero_j.Base.{
  ℕ, ◌+◌, ◌-◌, ◌*◌, true, Option, some, [], ◌∷◌, ◌≡◌, refl, ap, ◌∙◌, arith, All, leb, ◌&&◌,
}
use pero_j.Base.Codes.{Text}
use pero_j.Base.Decimal.{
  print_ℕ, decimal_value, value_after, decimal_value-print_ℕ, IsDigit, print_ℕ-digits,
  print_before_some,
}
use pero_j.Db.Queue.{set_cursor, get_cursor, parse_int, digits_after}

digits_lem : (n : ℕ) (s : Text) → All IsDigit s → digits_after n s ≡ value_after n s
unfolding digits_after value_after
digits_lem n [] h = refl
digits_lem n (c ∷ s) h =
    let e : (leb 48 c && leb c 57) ≡ true = ground arith in
    rw e (digits_lem (n * 10 + (c - 48)) s h.1)

parse_lem :
    (s : Text) (c : ℕ) (t : Text) → s ≡ c ∷ t → All IsDigit s → parse_int s ≡ some (decimal_value s)
unfolding parse_int decimal_value
parse_lem [] c t e h = absurd (cc)
parse_lem (d ∷ s) c t e h =
    let k : (leb 48 d && leb d 57) ≡ true = ground arith in rw k (ap some (digits_lem 0 (d ∷ s) h))

-- The cursor that is read after a ledger was stored is that ledger, whatever stood there before.
pub get-set_cursor :
    (ledger : ℕ) (state : Option Text) → get_cursor (set_cursor ledger state) ≡ some ledger
unfolding get_cursor set_cursor print_ℕ
get-set_cursor ledger state =
    let p = print_before_some ledger ledger [] in
    parse_lem (print_ℕ ledger) p.0 p.1 p.2 (print_ℕ-digits ledger)
    ∙ ap some (decimal_value-print_ℕ ledger)
