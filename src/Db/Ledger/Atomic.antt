-- ===== src/Db/Ledger/Atomic.antt =====
-- `persistLedger` of indexer/src/db.js writes a ledger wholly or not at all.
use pero_j.Base.{
  ℕ, suc, ◌+◌, Bool, true, false, none, some, List, [], ◌∷◌, ◌++◌, map, ◌≡◌, refl, sym, ap, ◌∙◌,
  ◌⊎◌, inl, inr, arith, length, append_nil, append_assoc, Outcome, returned, thrown, subst,
}
use pero_j.Db.Transaction.{
  Answer, lost, Failure, no_client, commit, rollback, change, Client, query, then_call,
  then_returned,
}
use pero_j.Db.Transaction.Ends.{
  working_on, Throws, LosesCommit, Ends, then-Throws, change_cases, begin_cases, commit_cases,
  rollback_lem,
}
use pero_j.Db.Ledger.{
  DecodedEvent, event_insert_params, Checkpoint, Tables, add_event, put_checkpoint, insert_event,
  insert_events, Persisted, write_ledger, persist_ledger,
}

-- The tables with a ledger written.
unfoldable pub written : List DecodedEvent → Checkpoint → Tables → Tables
written evs cp t = record {
  events = t.events ++ map event_insert_params evs;
  checkpoint_state = some cp;
}

unfoldable pub add_events : List DecodedEvent → Tables → Tables
add_events [] t = t
add_events (ev ∷ evs) t = add_events evs (add_event ev t)

insert_events_cases :
    (answers : ℕ → Answer) (evs : List DecodedEvent) (base t : Tables) (n : ℕ)
    → (insert_events answers evs (working_on base n t)
        ≡ (returned tt, working_on base (n + length evs) (add_events evs t)))
      ⊎ Throws base (insert_events answers evs (working_on base n t))
unfolding insert_events insert_event add_events
insert_events_cases answers [] base t n =
    let q : n ≡ n + 0 = omega arith in inl (ap (λ m. (returned tt, working_on base m t)) q)
insert_events_cases answers (ev ∷ evs) base t n =
    let rest = insert_events answers evs in
    elim (change_cases answers (add_event ev) base t n) [
      | inr h ↦ inr (then-Throws base _ rest h)
      | inl q ↦
          let k = then_returned _ (working_on base (n + 1) (add_event ev t)) rest q in
          let m : n + 1 + length evs ≡ n + suc (length evs) = omega arith in
          elim (insert_events_cases answers evs base (add_event ev t) (n + 1)) [
            | inl i ↦ inl (
                k
                ∙ i
                ∙ ap (λ x. (returned tt, working_on base x (add_events evs (add_event ev t)))) m)
            | inr i ↦ inr (subst (Throws base) (sym k) i)
          ]
    ]

add_events-written :
    (evs : List DecodedEvent) (cp : Checkpoint) (t : Tables)
    → put_checkpoint cp (add_events evs t) ≡ written evs cp t
unfolding add_events add_event put_checkpoint written
add_events-written [] cp t =
    ap (λ x. record { events = x; checkpoint_state = some cp }) (sym (append_nil t.events))
add_events-written (ev ∷ evs) cp t =
    add_events-written evs cp (add_event ev t)
    ∙ ap (λ x. record { events = x; checkpoint_state = some cp })
        (append_assoc t.events (event_insert_params ev ∷ []) (map event_insert_params evs))

write_ledger-Ends :
    (answers : ℕ → Answer) (evs : List DecodedEvent) (cp : Checkpoint) (base : Tables) (n : ℕ)
    → Ends answers
        (n + length evs + 2)
        base
        (written evs cp base)
        (write_ledger answers evs cp (record { committed = base; working = none; asked = n }))
unfolding Ends write_ledger
write_ledger-Ends answers evs cp base n =
    let last : Client Tables → Outcome Failure (Unit {0}) × Client Tables = query answers commit in
    let mark : Client Tables → Outcome Failure (Unit {0}) × Client Tables =
      λ c. then_call (query answers (change (put_checkpoint cp)) c) last in
    let fill : Client Tables → Outcome Failure (Unit {0}) × Client Tables =
      λ c. then_call (insert_events answers evs c) mark in
    let w = add_events-written evs cp base in
    elim (begin_cases answers base n) [
      | inr h ↦ inr (inl (then-Throws base _ fill h))
      | inl q ↦
          let k1 = then_returned _ _ fill q in
          elim (insert_events_cases answers evs base base (n + 1)) [
            | inr h ↦ inr (inl (subst (Throws base) (sym k1) (then-Throws base _ mark h)))
            | inl i ↦
                let k2 = k1 ∙ then_returned _ _ mark i in
                elim (change_cases answers (put_checkpoint cp) base (add_events evs base)
                  (n + 1 + length evs)) [
                    | inr h ↦ inr (inl (subst (Throws base) (sym k2) (then-Throws base _ last h)))
                    | inl j ↦
                        let m : n + 1 + length evs + 1 ≡ n + length evs + 2 = omega arith in
                        let k3 =
                          k2
                          ∙ then_returned _ _ last j
                          ∙ ap
                              (λ x.
                                query answers commit
                                  (working_on base x (put_checkpoint cp (add_events evs base))))
                              m
                          ∙ ap (λ x. query answers commit (working_on base (n + length evs + 2) x))
                              w in
                        subst (Ends answers (n + length evs + 2) base (written evs cp base))
                          (sym k3)
                          (commit_cases answers base (written evs cp base) (n + length evs + 2))
                  ]
          ]
    ]

unfoldable pub AllOrNothing :
    (ℕ → Answer) → List DecodedEvent → ℕ → Tables → Tables → Persisted → Type 0
AllOrNothing answers evs m base t p =
    ((p.outcome ≡ returned tt) × (p.client.committed ≡ t) × (p.emitted ≡ evs))
    ⊎ ((e : Failure) × (p.outcome ≡ thrown e)
        × (p.emitted ≡ [])
        × ((p.client.committed ≡ base) ⊎ ((p.client.committed ≡ t) × (answers m ≡ lost))))

-- The `catch` and what follows it.
unfoldable pub conclude :
    (ℕ → Answer) → List DecodedEvent → Outcome Failure (Unit {0}) × Client Tables → Persisted
conclude answers evs r = elim r.0 [
  | returned u ↦ record { outcome = returned tt; client = r.1; emitted = evs }
  | thrown e ↦ record { outcome = thrown e; client = (query answers rollback r.1).1; emitted = [] }
]

conclude-AllOrNothing :
    (answers : ℕ → Answer) (evs : List DecodedEvent) (m : ℕ) (base t : Tables)
    (r : Outcome Failure (Unit {0}) × Client Tables)
    → Ends answers m base t r
    → AllOrNothing answers evs m base t (conclude answers evs r)
unfolding Ends AllOrNothing Throws LosesCommit conclude
conclude-AllOrNothing answers evs m base t r (inl q) = rw q (inl (refl, refl, refl))
conclude-AllOrNothing answers evs m base t r (inr (inl h)) =
    rw h.2 (inr (h.0, refl, refl, inl (rollback_lem answers h.1 ∙ h.3)))
conclude-AllOrNothing answers evs m base t r (inr (inr h)) =
    rw h.2 (inr (h.0, refl, refl, inr (rollback_lem answers h.1 ∙ h.3, h.4)))

-- Whatever queries fail, `persistLedger` either returns, with all events of the ledger and its
-- checkpoint committed and all events emitted in order, or throws and emits nothing. When it
-- throws, the committed tables are those from before, unless the answer to the commit was lost on
-- the way: then they may be those with the whole ledger written.
pub persist_ledger-AllOrNothing :
    (connects : Bool) (answers : ℕ → Answer) (evs : List DecodedEvent) (cp : Checkpoint)
    (base : Tables) (n : ℕ)
    → AllOrNothing answers evs (n + length evs + 2) base (written evs cp base) (
        persist_ledger connects answers evs cp
          (record { committed = base; working = none; asked = n }))
unfolding AllOrNothing persist_ledger write_ledger conclude
persist_ledger-AllOrNothing false answers evs cp base n = inr (no_client, refl, refl, inl refl)
persist_ledger-AllOrNothing true answers evs cp base n =
    conclude-AllOrNothing answers evs (n + length evs + 2) base (written evs cp base)
      (write_ledger answers evs cp (record { committed = base; working = none; asked = n }))
      (write_ledger-Ends answers evs cp base n)
