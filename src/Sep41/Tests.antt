-- ===== src/Sep41/Tests.antt =====
-- A run of the workers of indexer/src/validateSep41.js: two of them, of which the second one's call
-- throws.
use pero_j.Base.{
  ℕ, zero, suc, ◌<◌, Bool, true, false, some, [], ◌∷◌, ◌≡◌, refl, arith, Outcome, returned, thrown,
}
use pero_j.Sep41.{
  Pool, result_of, start, take_item, write_result, Reachable, started, took, wrote, slot, is_true,
  compliant,
}
use pero_j.Sep41.Dense.{reachable-compliant}

program : Unit {0}
unfolding result_of start take_item write_result slot is_true compliant
program = tt

abbrev answer : ℕ → Outcome ℕ Bool
answer zero = returned true
answer (suc n) = thrown 7

abbrev both_busy : Pool
both_busy = take_item (take_item start)

abbrev finished : Pool
finished = write_result 1 false [] [] (write_result 0 true (1 ∷ []) [] both_busy)

test_results : finished.results ≡ (1, false) ∷ (0, true) ∷ []
unfolding program
test_results = refl

both_busy_reachable : Reachable 2 3 answer both_busy
unfolding program
both_busy_reachable =
    took (take_item start) (took start started (omega arith) (omega arith)) (omega arith)
      (omega arith)

finished_reachable : Reachable 2 3 answer finished
unfolding program
finished_reachable = wrote _ 1 [] [] (wrote both_busy 0 (1 ∷ []) [] both_busy_reachable refl) refl

reachable-compliant_example :
    ((i : ℕ) → i < 2 → slot i finished.results ≡ some (result_of (answer i)))
    × (compliant 2 finished.results ≡ true → (i : ℕ) → i < 2 → answer i ≡ returned true)
    × (((i : ℕ) → i < 2 → answer i ≡ returned true) → compliant 2 finished.results ≡ true)
unfolding program
reachable-compliant_example = reachable-compliant 2 3 answer finished finished_reachable refl refl
