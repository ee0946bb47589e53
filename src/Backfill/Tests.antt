-- ===== src/Backfill/Tests.antt =====
-- Runs of the backfill of indexer/src/backfill.js.
use pero_j.Base.{ℕ, ◌+◌, ◌≡◌, refl, Bool, not, none, some, [], ◌∷◌, returned, thrown, ◌==◌, arith}
use pero_j.Backfill.{
  Saved, kept, lost, State, save_failed, max, after_checkpoint, step, run_from, last_ledger_of,
  run_backfill, index_failed,
}
use pero_j.Backfill.Coverage.{Covered, IsResumable, run_backfill-Covered}

program : Unit {0}
unfolding max after_checkpoint step run_from last_ledger_of run_backfill
program = tt

-- The world counts the calls. Indexing fails at the third call of all; saving never does.
abbrev index : ℕ → ℕ → ℕ × Bool
index w ledger = (w + 1, not (w == 2))

abbrev save : ℕ → ℕ → ℕ × Saved
save w ledger = (w, kept)

abbrev fresh : State ℕ
fresh = record { world = 0; checkpoint = none; indexed = [] }

abbrev stopped : State ℕ
stopped = record { world = 3; checkpoint = some 11; indexed = 11 ∷ 10 ∷ [] }

fails_at_twelve : run_backfill index save 10 (some 13) 99 fresh ≡ (thrown index_failed, stopped)
unfolding program
fails_at_twelve = refl

resumes : (run_backfill index save 10 (some 13) 99 stopped).1.indexed ≡ 13 ∷ 12 ∷ 11 ∷ 10 ∷ []
unfolding program
resumes = refl

-- A save that is lost has written: the next run goes on behind it.
abbrev save_lost : ℕ → ℕ → ℕ × Saved
save_lost w ledger = (w, lost)

lost_save :
    run_backfill index save_lost 10 (some 13) 99 fresh
    ≡ (thrown save_failed, record { world = 1; checkpoint = some 10; indexed = 10 ∷ [] })
unfolding program
lost_save = refl

fresh-IsResumable : IsResumable 10 fresh
unfolding IsResumable Covered after_checkpoint
fresh-IsResumable l a b = absurd (omega (arith, a, b))

run_backfill-Covered_example :
    IsResumable 10 (run_backfill index save 10 (some 13) 99 fresh).1
    × ((u : Unit {0})
        → (run_backfill index save 10 (some 13) 99 fresh).0 ≡ returned u
        → Covered 10
            (last_ledger_of (some 13) 99 + 1)
            (run_backfill index save 10 (some 13) 99 fresh).1.indexed)
run_backfill-Covered_example =
    run_backfill-Covered index save 10 99 (some 13) fresh fresh-IsResumable
