-- ===== src/Db/Transaction/Ends.antt =====
-- How the statements of a transaction in indexer/src/db.js end, whatever queries fail.
use pero_j.Base.{ℕ, ◌+◌, none, some, ◌≡◌, refl, ap, ◌⊎◌, inl, inr, Outcome, returned, thrown}
use pero_j.Db.Transaction.{
  Answer, lost, Failure, failed_query, begin, commit, rollback, change, Client, view, carry_out,
  fail, query, then_call, query-cases, then_thrown,
}

module _ {T : Type 0} where
  unfoldable pub working_on : T → ℕ → T → Client T
  working_on base asked t = record { committed = base; working = some t; asked = asked }

  -- A call that throws and leaves the committed tables as they were.
  unfoldable pub Throws : T → Outcome Failure (Unit {0}) × Client T → Type 0
  Throws base r = (e : Failure) × (c : Client T) × (r ≡ (thrown e, c)) × (c.committed ≡ base)

  pub then-Throws :
      (base : T) (r : Outcome Failure (Unit {0}) × Client T)
      (next : Client T → Outcome Failure (Unit {0}) × Client T)
      → Throws base r
      → Throws base (then_call r next)
  unfolding Throws
  then-Throws base r next h = (h.0, h.1, then_thrown r h.0 h.1 next h.2, h.3)

  -- A change within a transaction.
  pub change_cases :
      (answers : ℕ → Answer) (f : T → T) (base t : T) (n : ℕ)
      → (query answers (change f) (working_on base n t)
          ≡ (returned tt, working_on base (n + 1) (f t)))
        ⊎ Throws base (query answers (change f) (working_on base n t))
  unfolding Throws working_on carry_out fail
  change_cases answers f base t n = elim (query-cases answers (change f) (working_on base n t)) [
    | inl q ↦ inl q
    | inr (inl q) ↦ inr (failed_query n, fail (working_on base n t), q, refl)
    | inr (inr q) ↦ inr (failed_query n, working_on base (n + 1) (f t), q.0, refl)
  ]

  -- A commit whose answer was lost.
  unfoldable pub LosesCommit : (ℕ → Answer) → ℕ → T → Outcome Failure (Unit {0}) × Client T → Type 0
  LosesCommit answers m t r =
      (e : Failure) × (c : Client T) × (r ≡ (thrown e, c)) × (c.committed ≡ t) × (answers m ≡ lost)

  pub commit_cases :
      (answers : ℕ → Answer) (base t : T) (n : ℕ)
      → (query answers commit (working_on base n t)
          ≡ (returned tt, record { committed = t; working = none; asked = n + 1 }))
        ⊎ (Throws base (query answers commit (working_on base n t))
            ⊎ LosesCommit answers n t (query answers commit (working_on base n t)))
  unfolding Throws LosesCommit working_on carry_out fail view
  commit_cases answers base t n = elim (query-cases answers commit (working_on base n t)) [
    | inl q ↦ inl q
    | inr (inl q) ↦ inr (inl (failed_query n, fail (working_on base n t), q, refl))
    | inr (inr q) ↦ inr (
        inr
          (failed_query n, record { committed = t; working = none; asked = n + 1 }, q.0, refl, q.1))
  ]

  pub begin_cases :
      (answers : ℕ → Answer) (base : T) (n : ℕ)
      → (query answers begin (record { committed = base; working = none; asked = n })
          ≡ (returned tt, working_on base (n + 1) base))
        ⊎ Throws base (query answers begin (record { committed = base; working = none; asked = n }))
  unfolding Throws working_on carry_out fail
  begin_cases answers base n =
      let c : Client T = record { committed = base; working = none; asked = n } in
      elim (query-cases answers begin c) [
        | inl q ↦ inl q
        | inr (inl q) ↦ inr (failed_query n, fail c, q, refl)
        | inr (inr q) ↦ inr (failed_query n, working_on base (n + 1) base, q.0, refl)
      ]

  -- How the body of the `try` ends.
  unfoldable pub Ends : (ℕ → Answer) → ℕ → T → T → Outcome Failure (Unit {0}) × Client T → Type 0
  Ends answers m base t r =
      (r ≡ (returned tt, record { committed = t; working = none; asked = m + 1 }))
      ⊎ (Throws base r ⊎ LosesCommit answers m t r)

  pub rollback_lem :
      (answers : ℕ → Answer) (c : Client T) → (query answers rollback c).1.committed ≡ c.committed
  unfolding carry_out fail
  rollback_lem answers c = elim (query-cases answers rollback c) [
    | inl q ↦ ap (λ r. r.1.committed) q
    | inr (inl q) ↦ ap (λ r. r.1.committed) q
    | inr (inr q) ↦ ap (λ r. r.1.committed) q.0
  ]
