-- ===== src/Backfill/Coverage.antt =====
-- Which ledgers have been indexed after runs of indexer/src/backfill.js.
use mathlib.Core.Path.{subst}
use pero_j.Base.{
  ℕ, zero, suc, ◌+◌, ◌-◌, ◌≤◌, ◌<◌, ◌≡◌, refl, ◌⊎◌, inl, inr, Bool, Option, List, [], ◌∷◌, returned,
  ltb, arith, Bool-cases, Outcome-cases,
}
use pero_j.Backfill.{
  Saved, kept, lost, unwritten, State, max, after_checkpoint, step, run_from, last_ledger_of,
  run_backfill,
}

unfoldable pub Occurs : ℕ → List ℕ → Type 0
Occurs l [] = ⊥
Occurs l (x ∷ xs) = (x ≡ l) ⊎ Occurs l xs

-- Every ledger from the first one to before the limit was indexed.
unfoldable pub Covered : ℕ → ℕ → List ℕ → Type 0
Covered first limit done = (l : ℕ) → first ≤ l → l < limit → Occurs l done

-- Every ledger from the first one to the checkpoint was indexed.
unfoldable pub IsResumable : {W : Type 0} → ℕ → State W → Type 0
IsResumable first s = Covered first (after_checkpoint s.checkpoint first) s.indexed

Covered-more :
    (first limit x : ℕ) (done : List ℕ) → Covered first limit done → Covered first limit (x ∷ done)
unfolding Covered Occurs
Covered-more first limit x done h l a b = inr (h l a b)

Covered-next :
    (first x : ℕ) (done : List ℕ) → Covered first x done → Covered first (x + 1) (x ∷ done)
unfolding Covered Occurs
Covered-next first x done h l a b = elim (Bool-cases (ltb l x)) [
  | inl e ↦ inr (h l a (ground (arith, e)))
  | inr e ↦ inl (ground (arith, e, b))
]

max-left : (a b : ℕ) → a ≤ max a b
unfolding max
max-left a b = ground arith

up_to :
    (first limit more : ℕ) (done : List ℕ)
    → limit ≤ more
    → Covered first more done
    → Covered first limit done
unfolding Covered
up_to first limit more done le h l a b = h l a (omega (arith, le, b))

Saved-cases : (x : Saved) → (x ≡ kept) ⊎ ((x ≡ lost) ⊎ (x ≡ unwritten))
Saved-cases kept = inl refl
Saved-cases lost = inr (inl refl)
Saved-cases unwritten = inr (inr refl)

module _ {W : Type 0} (index : W → ℕ → W × Bool) (save : W → ℕ → W × Saved) where
  -- A step keeps what is covered, and covers its own ledger if it returns.
  step-Covered :
      (first ledger : ℕ) (s : State W)
      → first ≤ ledger
      → Covered first ledger s.indexed
      → IsResumable first s
      → IsResumable first (step index save ledger s).1
        × ((u : Unit {0})
            → (step index save ledger s).0 ≡ returned u
            → Covered first (ledger + 1) (step index save ledger s).1.indexed)
  unfolding step IsResumable after_checkpoint
  step-Covered first ledger s le c r = elim (Bool-cases (index s.world ledger).1) [
    | inr e ↦ rw (step, e) (r, λ u h. absurd (cc))
    | inl e ↦ elim (Saved-cases (save (index s.world ledger).0 ledger).1) [
      | inr (inl f) ↦ rw (step, e, f) (Covered-next first ledger s.indexed c, λ u h. absurd (cc))
      | inr (inr f) ↦
          rw (step, e, f)
            (
              Covered-more first (after_checkpoint s.checkpoint first) ledger s.indexed r,
              λ u h. absurd (cc),
            )
      | inl f ↦
          let next = Covered-next first ledger s.indexed c in rw (step, e, f) (next, λ u h. next)
    ]
  ]

  run_from-Covered :
      (first n ledger : ℕ) (s : State W)
      → first ≤ ledger
      → Covered first ledger s.indexed
      → IsResumable first s
      → IsResumable first (run_from index save n ledger s).1
        × ((u : Unit {0})
            → (run_from index save n ledger s).0 ≡ returned u
            → Covered first (ledger + n) (run_from index save n ledger s).1.indexed)
  unfolding run_from
  run_from-Covered first zero ledger s le c r =
      let q : ledger ≡ ledger + 0 = omega arith in
      (r, λ u h. subst (λ m. Covered first m s.indexed) q c)
  run_from-Covered first (suc n) ledger s le c r =
      let (keep, next) = step-Covered first ledger s le c r in
      elim (Outcome-cases (step index save ledger s).0) [
        | inl (p, e) ↦ rw (run_from, e) (keep, λ u h. absurd (cc))
        | inr (v, e) ↦
            let v' = (step index save ledger s).1 in
            let (a, b) =
              run_from-Covered first n (ledger + 1) v' (omega (arith, le)) (next v e) keep in
            let q : ledger + 1 + n ≡ ledger + suc n = omega arith in
            let done = (run_from index save n (ledger + 1) v').1.indexed in
            rw (run_from, e) (a, λ u h. subst (λ m. Covered first m done) q (b u h))
      ]

  start-Covered :
      (first : ℕ) (s : State W)
      → IsResumable first s
      → Covered first (max first (after_checkpoint s.checkpoint first)) s.indexed
  unfolding IsResumable Covered max
  start-Covered first s r l a b = r l a (ground (arith, a, b))

  -- Whatever fails, and whatever the range of an earlier run with the same first ledger: a run
  -- that starts with everything up to the checkpoint indexed ends so, whether it returns or
  -- throws. If it returns, every ledger from the first to the last one has been indexed.
  pub run_backfill-Covered :
      (first latest : ℕ) (to_ledger : Option ℕ) (s : State W)
      → IsResumable first s
      → IsResumable first (run_backfill index save first to_ledger latest s).1
        × ((u : Unit {0})
            → (run_backfill index save first to_ledger latest s).0 ≡ returned u
            → Covered first
                (last_ledger_of to_ledger latest + 1)
                (run_backfill index save first to_ledger latest s).1.indexed)
  unfolding run_backfill
  run_backfill-Covered first latest to_ledger s r =
      let last = last_ledger_of to_ledger latest in
      let begin = max first (after_checkpoint s.checkpoint first) in
      elim (Bool-cases (ltb last first)) [
        | inl e ↦ rw (run_backfill, e) (r, λ u h. absurd (cc))
        | inr e ↦
            let (a, b) =
              run_from-Covered first (last + 1 - begin) begin s (max-left first _)
                (start-Covered first s r) r in
            rw (run_backfill, e) (a, λ u h. up_to first (last + 1) _ _ (omega arith) (b u h))
      ]
