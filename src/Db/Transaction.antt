-- ===== src/Db/Transaction.antt =====
-- A client of the connection pool in indexer/src/db.js. `T` is what the tables hold. A query can be
-- refused, or its answer can be lost on the way after the database has carried it out; which of
-- these happens to the n-th query of the client is the argument `answers`.
pub mod Ends
use pero_j.Base.{
  ℕ, ◌+◌, Option, none, some, Outcome, returned, thrown, ◌≡◌, refl, ap, ◌∙◌, ◌⊎◌, inl, inr,
}

pub data Answer : Type 0 where
  answered refused lost : Answer

pub data Failure : Type 0 where
  no_client : Failure
  failed_query : ℕ → Failure

pub data Statement (T : Type 0) : Type 0 where
  begin commit rollback : Statement T
  change : (T → T) → Statement T

pub record Client (T : Type 0) : Type 0 where
  pub committed : T
  pub working : Option T
  pub asked : ℕ

Answer-cases : (a : Answer) → (a ≡ answered) ⊎ ((a ≡ refused) ⊎ (a ≡ lost))
Answer-cases answered = inl refl
Answer-cases refused = inr (inl refl)
Answer-cases lost = inr (inr refl)

module _ {T : Type 0} where
  -- What a query of this client sees.
  unfoldable pub view : Client T → T
  view c = elim c.working [ none ↦ c.committed | some t ↦ t ]

  unfoldable pub carry_out : Statement T → Client T → Client T
  carry_out begin c = record {
    committed = c.committed;
    working = some c.committed;
    asked = c.asked + 1;
  }
  carry_out commit c = record { committed = view c; working = none; asked = c.asked + 1 }
  carry_out rollback c = record { committed = c.committed; working = none; asked = c.asked + 1 }
  carry_out (change f) c = elim c.working [
    | none ↦ record { committed = f c.committed; working = none; asked = c.asked + 1 }
    | some t ↦ record { committed = c.committed; working = some (f t); asked = c.asked + 1 }
  ]

  unfoldable pub fail : Client T → Client T
  fail c = record { committed = c.committed; working = c.working; asked = c.asked + 1 }

  unfoldable pub settle : Answer → Statement T → Client T → Outcome Failure (Unit {0}) × Client T
  settle answered step c = (returned tt, carry_out step c)
  settle refused step c = (thrown (failed_query c.asked), fail c)
  settle lost step c = (thrown (failed_query c.asked), carry_out step c)

  unfoldable pub query :
      (ℕ → Answer) → Statement T → Client T → Outcome Failure (Unit {0}) × Client T
  query answers step c = settle (answers c.asked) step c

  -- `await` of one call after another: the second is not made if the first throws.
  unfoldable pub then_call :
      Outcome Failure (Unit {0}) × Client T
      → (Client T → Outcome Failure (Unit {0}) × Client T)
      → Outcome Failure (Unit {0}) × Client T
  then_call (thrown e, c) next = (thrown e, c)
  then_call (returned u, c) next = next c

  -- The three ways that a query ends.
  pub query-cases :
      (answers : ℕ → Answer) (step : Statement T) (c : Client T)
      → (query answers step c ≡ (returned tt, carry_out step c))
        ⊎ ((query answers step c ≡ (thrown (failed_query c.asked), fail c))
            ⊎ ((query answers step c ≡ (thrown (failed_query c.asked), carry_out step c))
                × (answers c.asked ≡ lost)))
  unfolding query settle
  query-cases answers step c = elim (Answer-cases (answers c.asked)) [
    | inl a ↦ inl (ap (λ x. settle x step c) a)
    | inr (inl a) ↦ inr (inl (ap (λ x. settle x step c) a))
    | inr (inr a) ↦ inr (inr (ap (λ x. settle x step c) a, a))
  ]

  pub query_answered :
      (answers : ℕ → Answer) (step : Statement T) (c : Client T)
      → answers c.asked ≡ answered
      → query answers step c ≡ (returned tt, carry_out step c)
  unfolding query settle
  query_answered answers step c a = ap (λ x. settle x step c) a

  pub then_returned :
      (r : Outcome Failure (Unit {0}) × Client T) (c : Client T)
      (next : Client T → Outcome Failure (Unit {0}) × Client T)
      → r ≡ (returned tt, c)
      → then_call r next ≡ next c
  unfolding then_call
  then_returned r c next e = ap (λ x. then_call x next) e

  pub then_thrown :
      (r : Outcome Failure (Unit {0}) × Client T) (e : Failure) (c : Client T)
      (next : Client T → Outcome Failure (Unit {0}) × Client T)
      → r ≡ (thrown e, c)
      → then_call r next ≡ (thrown e, c)
  unfolding then_call
  then_thrown r e c next q = ap (λ x. then_call x next) q
