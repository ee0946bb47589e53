-- ===== src/Reorg/Tests.antt =====
-- Runs of the reorg detection of indexer/src/reorg.js.
use Prim.Native.String.{String}
use native.Mathlib.Decide.{ℕ_discrete}
use pero_j.Base.{ℕ, ◌≡◌, refl, some, [], ◌∷◌, Outcome, returned, arith}
use pero_j.Base.Dict.{Dict}
use pero_j.Reorg.{Indexed, diverges, first_divergence, last_ledger, detect_reorg}
use pero_j.Reorg.Lowest.{Ascends, IsLowest, detect_reorg-IsLowest}

program : Unit {0}
unfolding diverges first_divergence last_ledger detect_reorg ℕ_discrete
program = tt

abbrev at : ℕ → String → Indexed
at n h = record { ledger = n; hash = h }

abbrev node : ℕ → ℕ → Outcome (Unit {0}) (Dict ℕ String)
node start count = returned ((8, "h8") ∷ (9, "other") ∷ (10, "other") ∷ [])

forks_at_nine :
    detect_reorg node (at 7 "h7" ∷ at 8 "h8" ∷ at 9 "h9" ∷ at 10 "h10" ∷ []) ≡ returned (some 9)
unfolding program
forks_at_nine = refl

detect_reorg-IsLowest_example :
    (canonical : Dict ℕ String) × (node 7 4 ≡ returned canonical)
    × IsLowest canonical (some 9) (at 7 "h7" ∷ at 8 "h8" ∷ at 9 "h9" ∷ at 10 "h10" ∷ [])
unfolding program Ascends
detect_reorg-IsLowest_example =
    detect_reorg-IsLowest node (at 7 "h7") (at 8 "h8" ∷ at 9 "h9" ∷ at 10 "h10" ∷ []) (some 9)
      (
        (omega arith, (omega arith, (omega arith, tt))),
        ((omega arith, (omega arith, tt)), ((omega arith, tt), (tt, tt))),
      )
      refl
