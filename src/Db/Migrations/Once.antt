-- ===== src/Db/Migrations/Once.antt =====
-- However the runs of `init` in indexer/src/db.js fail, no migration is carried out twice.
use pero_j.Base.{
  ℕ, ◌+◌, true, false, ◌||◌, List, [], ◌∷◌, ◌++◌, ◌==◌, ◌≡◌, refl, sym, ap, ◌⊎◌, inl, inr, arith,
  Outcome, returned, subst, Bool-cases, All,
}
use pero_j.Db.Transaction.{Answer, Failure, change, Client, view, query, then_call, then_returned}
use pero_j.Db.Transaction.Ends.{working_on, Throws, then-Throws, change_cases}
use pero_j.Db.Migrations.{
  Migration, Schema, has_id, run_sql, record_migration, apply_new, apply_migration, apply_all,
}

-- No id stands twice.
unfoldable pub IsDistinct : List Migration → Type 0
IsDistinct [] = Unit
IsDistinct (m ∷ ms) = (has_id m.id ms ≡ false) × IsDistinct ms

-- What was carried out is what is recorded, once each.
unfoldable pub IsOnce : Schema → Type 0
IsOnce s = (s.ran ≡ s.schema_migrations) × IsDistinct s.schema_migrations

has-append :
    (i : ℕ) (ms : List Migration) (m : Migration)
    → has_id i (ms ++ m ∷ []) ≡ (has_id i ms || (m.id == i))
unfolding has_id
has-append i [] m = ground arith
has-append i (n ∷ ms) m = ground (arith, has-append i ms m)

append-IsDistinct :
    (ms : List Migration) (m : Migration)
    → IsDistinct ms
    → has_id m.id ms ≡ false
    → IsDistinct (ms ++ m ∷ [])
unfolding IsDistinct has_id
append-IsDistinct [] m h k = (refl, tt)
append-IsDistinct (n ∷ ms) m h k =
    (ground (arith, has-append n.id ms m, h.0), append-IsDistinct ms m h.1 (ground arith))

recorded-IsOnce :
    (m : Migration) (s : Schema)
    → has_id m.id s.schema_migrations ≡ false
    → IsOnce s
    → IsOnce (record_migration m (run_sql m s))
unfolding IsOnce record_migration run_sql
recorded-IsOnce m s k h =
    (ap (λ ran. ran ++ m ∷ []) h.0, append-IsDistinct s.schema_migrations m h.1 k)

-- The call comes to a schema of the wanted kind, in its transaction, or throws.
unfoldable pub Reaches :
    (Schema → Type 0) → Schema → Outcome Failure (Unit {0}) × Client Schema → Type 0
Reaches P base r =
    ((t : Schema) × (n : ℕ) × (r ≡ (returned tt, working_on base n t)) × P t) ⊎ Throws base r

then-Reaches :
    (P Q : Schema → Type 0) (base : Schema) (r : Outcome Failure (Unit {0}) × Client Schema)
    (next : Client Schema → Outcome Failure (Unit {0}) × Client Schema)
    → Reaches P base r
    → ((t : Schema) (n : ℕ) → P t → Reaches Q base (next (working_on base n t)))
    → Reaches Q base (then_call r next)
unfolding Reaches
then-Reaches P Q base r next (inr h) f = inr (then-Throws base r next h)
then-Reaches P Q base r next (inl h) f =
    subst (Reaches Q base) (sym (then_returned r (working_on base h.1 h.0) next h.2))
      (f h.0 h.1 h.3)

pub change-Reaches :
    (P : Schema → Type 0) (answers : ℕ → Answer) (f : Schema → Schema) (base t : Schema) (n : ℕ)
    → P (f t)
    → Reaches P base (query answers (change f) (working_on base n t))
unfolding Reaches
change-Reaches P answers f base t n p = elim (change_cases answers f base t n) [
  | inl q ↦ inl (f t, n + 1, q, p)
  | inr h ↦ inr h
]

-- Besides, the given migrations are recorded.
unfoldable pub IsDone : List Migration → Schema → Type 0
IsDone ms s = IsOnce s × All (λ m. has_id m.id s.schema_migrations ≡ true) ms

All-has-append :
    (done ms : List Migration) (m : Migration)
    → All (λ d. has_id d.id ms ≡ true) done
    → All (λ d. has_id d.id (ms ++ m ∷ []) ≡ true) done
All-has-append [] ms m h = tt
All-has-append (d ∷ done) ms m h =
    (ground (arith, has-append d.id ms m, h.0), All-has-append done ms m h.1)

recorded-IsDone :
    (done : List Migration) (m : Migration) (s : Schema)
    → has_id m.id s.schema_migrations ≡ false
    → IsDone done s
    → IsDone (m ∷ done) (record_migration m (run_sql m s))
unfolding IsDone record_migration run_sql
recorded-IsDone done m s k h = (
  recorded-IsOnce m s k h.0,
  (
    ground (arith, has-append m.id s.schema_migrations m),
    All-has-append done s.schema_migrations m h.1,
  ),
)

apply_new-Reaches :
    (answers : ℕ → Answer) (done : List Migration) (m : Migration) (base t : Schema) (n : ℕ)
    → IsDone done t
    → Reaches
        (IsDone (m ∷ done))
        base
        (apply_new answers m (has_id m.id t.schema_migrations) (working_on base n t))
unfolding apply_new Reaches IsDone
apply_new-Reaches answers done m base t n h = elim (Bool-cases (has_id m.id t.schema_migrations)) [
  | inl there ↦ rw there (inl (t, n, refl, (h.0, (there, h.1))))
  | inr absent ↦ rw absent (
      then-Reaches (λ s. s ≡ run_sql m t) (IsDone (m ∷ done)) base _ _
        (change-Reaches (λ s. s ≡ run_sql m t) answers (run_sql m) base t n refl)
        (λ s k e. change-Reaches (IsDone (m ∷ done)) answers (record_migration m) base s k (
          subst (λ x. IsDone (m ∷ done) (record_migration m x)) (sym e)
            (recorded-IsDone done m t absent h))))
]

apply_migration-Reaches :
    (answers : ℕ → Answer) (done : List Migration) (m : Migration) (base t : Schema) (n : ℕ)
    → IsDone done t
    → Reaches (IsDone (m ∷ done)) base (apply_migration answers m (working_on base n t))
unfolding apply_migration view working_on
apply_migration-Reaches answers done m base t n h =
    then-Reaches (IsDone done) (IsDone (m ∷ done)) base _ _
      (change-Reaches (IsDone done) answers (λ s. s) base t n h)
      (λ s k d. apply_new-Reaches answers done m base s k d)

-- The migrations of the first list, with those of the second done.
unfoldable pub onto : List Migration → List Migration → List Migration
onto [] done = done
onto (m ∷ ms) done = onto ms (m ∷ done)

pub apply_all-Reaches :
    (answers : ℕ → Answer) (ms done : List Migration) (base t : Schema) (n : ℕ)
    → IsDone done t
    → Reaches (IsDone (onto ms done)) base (apply_all answers ms (working_on base n t))
unfolding apply_all Reaches onto
apply_all-Reaches answers [] done base t n h = inl (t, n, refl, h)
apply_all-Reaches answers (m ∷ ms) done base t n h =
    then-Reaches (IsDone (m ∷ done)) (IsDone (onto ms (m ∷ done))) base _ _
      (apply_migration-Reaches answers done m base t n h)
      (λ s k d. apply_all-Reaches answers ms (m ∷ done) base s k d)
