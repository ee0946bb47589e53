-- ===== src/Db/Migrations/Settled.antt =====
-- The end of `init` in indexer/src/db.js: committed, or rolled back.
use pero_j.Base.{
  ℕ, ◌+◌, Bool, true, false, none, List, [], ◌∷◌, ◌≡◌, refl, sym, ◌∙◌, ◌⊎◌, inl, inr, arith,
  Outcome, returned, thrown, subst, Bool-cases, Option-cases, if◌then◌else◌, All,
}
use pero_j.Db.Transaction.{
  Answer, answered, Failure, begin, commit, rollback, Client, carry_out, fail, query, then_call,
  settle, answered, refused, lost, failed_query, query-cases, then_returned,
}
use pero_j.Db.Transaction.Ends.{
  working_on, Throws, LosesCommit, then-Throws, begin_cases, commit_cases, rollback_lem,
}
use pero_j.Db.Migrations.{
  Migration, Schema, has_id, same_schema, migrate, unlock, roll_back, init, takes_effect,
}
use pero_j.Db.Migrations.Once.{IsOnce, IsDone, onto, Reaches, change-Reaches, apply_all-Reaches}

-- Either returned with the migrations done, or thrown with what was committed still right.
unfoldable Settled : List Migration → Outcome Failure (Unit {0}) × Client Schema → Type 0
Settled ms r =
    ((r.0 ≡ returned tt) × IsDone ms r.1.committed)
    ⊎ ((e : Failure) × (r.0 ≡ thrown e) × IsOnce r.1.committed)

Throws-Settled :
    (ms : List Migration) (base : Schema) (r : Outcome Failure (Unit {0}) × Client Schema)
    → IsOnce base
    → Throws base r
    → Settled ms r
unfolding Settled Throws
Throws-Settled ms base r once h = rw h.2 (inr (h.0, refl, subst IsOnce (sym h.3) once))

commit-Settled :
    (answers : ℕ → Answer) (ms : List Migration) (base t : Schema) (n : ℕ)
    → IsOnce base
    → IsDone ms t
    → Settled ms (query answers commit (working_on base n t))
unfolding Settled LosesCommit IsDone
commit-Settled answers ms base t n once h = elim (commit_cases answers base t n) [
  | inl q ↦ rw q (inl (refl, h))
  | inr (inl k) ↦ Throws-Settled ms base _ once k
  | inr (inr k) ↦ rw k.2 (inr (k.0, refl, subst IsOnce (sym k.3) h.0))
]

then-Settled :
    (P : Schema → Type 0) (ms : List Migration) (base : Schema)
    (r : Outcome Failure (Unit {0}) × Client Schema)
    (next : Client Schema → Outcome Failure (Unit {0}) × Client Schema)
    → IsOnce base
    → Reaches P base r
    → ((t : Schema) (n : ℕ) → P t → Settled ms (next (working_on base n t)))
    → Settled ms (then_call r next)
unfolding Reaches
then-Settled P ms base r next once (inr h) f =
    Throws-Settled ms base _ once (then-Throws base r next h)
then-Settled P ms base r next once (inl h) f =
    subst (Settled ms) (sym (then_returned r _ next h.2)) (f h.0 h.1 h.3)

begin-Reaches :
    (answers : ℕ → Answer) (base : Schema) (n : ℕ)
    → IsOnce base
    → Reaches
        (IsDone [])
        base
        (query answers begin (record { committed = base; working = none; asked = n }))
unfolding Reaches IsDone
begin-Reaches answers base n once = elim (begin_cases answers base n) [
  | inl q ↦ inl (base, n + 1, q, (once, tt))
  | inr h ↦ inr h
]

migrate-Settled :
    (answers : ℕ → Answer) (ms : List Migration) (base : Schema) (n : ℕ)
    → IsOnce base
    → Settled
        (onto ms [])
        (migrate answers ms (record { committed = base; working = none; asked = n }))
unfolding migrate
migrate-Settled answers ms base n once =
    let all = onto ms [] in
    then-Settled (IsDone []) all base _ _ once (begin-Reaches answers base n once) λ t k h.
      then-Settled (IsDone []) all base _ _ once
        (change-Reaches (IsDone []) answers (λ s. s) base t k h)
        λ u m g.
          then-Settled (IsDone all) all base _ _ once (apply_all-Reaches answers ms [] base u m g)
            λ v i d. commit-Settled answers all base v i once d

not_returned : (e : Failure) → ◌≡◌ {A = Outcome Failure (Unit {0})} (thrown e) (returned tt) → ⊥
not_returned e h = cc

-- After the rollback, an error is thrown, and what was committed stays.
rethrown :
    (e : Failure) (r : Outcome Failure (Unit {0}) × Client Schema)
    → (f : Failure) × ((then_call r (λ c. (thrown e, c))).0 ≡ thrown f)
      × ((then_call r (λ c. (thrown e, c))).1.committed ≡ r.1.committed)
unfolding then_call
rethrown e (returned u, c) = (e, refl, refl)
rethrown e (thrown f, c) = (f, refl, refl)

roll_back-Settled :
    (answers : ℕ → Answer) (ms : List Migration) (r : Outcome Failure (Unit {0}) × Client Schema)
    → Settled ms r
    → Settled ms (roll_back answers r)
unfolding Settled roll_back
roll_back-Settled answers ms (returned u, c) h = h
roll_back-Settled answers ms (thrown e, c) (inl h) = absurd (not_returned e h.0)
roll_back-Settled answers ms (thrown e, c) (inr h) =
    let k = rethrown e (query answers rollback c) in
    inr (k.0, k.1, subst IsOnce (sym (k.2 ∙ rollback_lem answers c)) h.2)

lock_thrown :
    (ms : List Migration) (base : Schema) (d : Client Schema)
    (r : Outcome Failure (Unit {0}) × Client Schema)
    (next : Client Schema → Outcome Failure (Unit {0}) × Client Schema)
    → IsOnce base
    → r ≡ (thrown (failed_query 0), d)
    → d.committed ≡ base
    → Settled ms (then_call r next)
unfolding Throws
lock_thrown ms base d r next once q s =
    Throws-Settled ms base _ once (then-Throws base r next (failed_query 0, d, q, s))

locked-Settled :
    (answers : ℕ → Answer) (ms : List Migration) (base : Schema)
    → IsOnce base
    → let c : Client Schema = record { committed = base; working = none; asked = 0 } in
      Settled (onto ms []) (then_call (query answers same_schema c) (migrate answers ms))
unfolding carry_out fail
locked-Settled answers ms base once =
    let c : Client Schema = record { committed = base; working = none; asked = 0 } in
    elim (query-cases answers same_schema c) [
      | inl q ↦
          subst (Settled (onto ms [])) (sym (then_returned _ _ (migrate answers ms) q))
            (migrate-Settled answers ms base 1 once)
      | inr (inl q) ↦ lock_thrown (onto ms []) base (fail c) _ (migrate answers ms) once q refl
      | inr (inr q) ↦
          lock_thrown (onto ms []) base (carry_out same_schema c) _ (migrate answers ms) once q.0
            refl
    ]

same_committed : (c : Client Schema) → (carry_out same_schema c).committed ≡ c.committed
unfolding carry_out
same_committed c = elim (Option-cases c.working) [ inl e ↦ rw e refl | inr e ↦ rw e.1 refl ]

settle_committed :
    (a : Answer) (c : Client Schema) → (settle a same_schema c).1.committed ≡ c.committed
unfolding settle fail
settle_committed answered c = same_committed c
settle_committed refused c = refl
settle_committed lost c = same_committed c

All-onto :
    (P : Migration → Type 0) (ms done : List Migration)
    → All P (onto ms done)
    → All P ms × All P done
unfolding onto
All-onto P [] done h = (tt, h)
All-onto P (m ∷ ms) done h = let k = All-onto P ms (m ∷ done) h in ((k.1.0, k.0), k.1.1)

refused_of : (a : Answer) → takes_effect a ≡ false → a ≡ refused
unfolding takes_effect
refused_of answered h = absurd (cc)
refused_of refused h = refl
refused_of lost h = absurd (cc)

held :
    (a : Answer) (locked : Bool) → (if takes_effect a then false else locked) ≡ true → a ≡ refused
held a locked h = elim (Bool-cases (takes_effect a)) [
  | inl e ↦ absurd (ground arith)
  | inr e ↦ refused_of a e
]

ends :
    (ms : List Migration) (r : Outcome Failure (Unit {0}) × Client Schema) (t : Schema)
    → Settled (onto ms []) r
    → r.1.committed ≡ t
    → IsOnce t × (r.0 ≡ returned tt → All (λ m. has_id m.id t.schema_migrations ≡ true) ms)
unfolding Settled IsDone
ends ms r t (inl h) e = (
  subst IsOnce e h.1.0,
  (λ q.
      (All-onto _ ms []
        (subst (λ s. All (λ m. has_id m.id s.schema_migrations ≡ true) (onto ms [])) e h.1.1)).0),
)
ends ms r t (inr h) e = (subst IsOnce e h.2, (λ q. absurd (not_returned h.0 (sym h.1 ∙ q))))

-- `init` returns only with every migration recorded. However it ends, the migrations that were
-- carried out are those recorded, none of them twice, if this held before, and it leaves the
-- advisory lock held only if a query was refused.
pub init-IsOnce :
    (connects : Bool) (answers : ℕ → Answer) (ms : List Migration) (base : Schema)
    → IsOnce base
    → let s = init connects answers ms (record { committed = base; working = none; asked = 0 }) in
      IsOnce s.client.committed
      × (s.outcome ≡ returned tt
          → All (λ m. has_id m.id s.client.committed.schema_migrations ≡ true) ms)
      × (s.locked ≡ true → (n : ℕ) × (answers n ≡ refused))
unfolding init unlock query
init-IsOnce false answers ms base once = (once, (λ h. absurd (cc)), (λ h. absurd (cc)))
init-IsOnce true answers ms base once =
    let c : Client Schema = record { committed = base; working = none; asked = 0 } in
    let body = then_call (query answers same_schema c) (migrate answers ms) in
    let r = roll_back answers body in
    let s = roll_back-Settled answers (onto ms []) body (locked-Settled answers ms base once) in
    let e = ends ms r _ s (sym (settle_committed (answers r.1.asked) r.1)) in
    (e.0, e.1, (λ h. (r.1.asked, held _ _ h)))
