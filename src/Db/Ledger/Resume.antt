-- ===== src/Db/Ledger/Resume.antt =====
-- `getCheckpoint` of indexer/src/db.js after `persistLedger`.
use pero_j.Base.{
  ℕ, suc, ◌+◌, none, some, List, [], ◌∷◌, ◌≡◌, refl, sym, ap, ◌∙◌, inl, inr, arith, length, Outcome,
  returned, thrown, leb, if◌then◌else◌, true,
}
use pero_j.Db.Transaction.{
  Answer, answered, Failure, begin, commit, change, Client, carry_out, query_answered,
  then_returned,
}
use pero_j.Db.Transaction.Ends.{working_on}
use pero_j.Db.Ledger.{
  DecodedEvent, Checkpoint, Tables, add_event, put_checkpoint, insert_event, insert_events,
  write_ledger, persist_ledger, get_checkpoint, read_checkpoint, max_safe,
}
use pero_j.Db.Ledger.Atomic.{
  add_events, written, conclude, AllOrNothing, persist_ledger-AllOrNothing,
}

inserts_answered :
    (answers : ℕ → Answer) (evs : List DecodedEvent) (base t : Tables) (n : ℕ)
    → ((m : ℕ) → answers m ≡ answered)
    → insert_events answers evs (working_on base n t)
      ≡ (returned tt, working_on base (n + length evs) (add_events evs t))
unfolding insert_events insert_event add_events working_on carry_out
inserts_answered answers [] base t n all =
    let q : n ≡ n + 0 = omega arith in ap (λ m. (returned tt, working_on base m t)) q
inserts_answered answers (ev ∷ evs) base t n all =
    let m : n + 1 + length evs ≡ n + suc (length evs) = omega arith in
    then_returned _ _ (insert_events answers evs)
      (query_answered answers (change (add_event ev)) (working_on base n t) (all n))
    ∙ inserts_answered answers evs base (add_event ev t) (n + 1) all
    ∙ ap (λ x. (returned tt, working_on base x (add_events evs (add_event ev t)))) m

write_answered :
    (answers : ℕ → Answer) (evs : List DecodedEvent) (cp : Checkpoint) (base : Tables) (n : ℕ)
    → ((m : ℕ) → answers m ≡ answered)
    → (write_ledger answers evs cp (record { committed = base; working = none; asked = n })).0
      ≡ returned tt
unfolding write_ledger working_on carry_out
write_answered answers evs cp base n all =
    let c : Client Tables = record { committed = base; working = none; asked = n } in
    let e1 = then_returned _ _ _ (query_answered answers begin c (all n)) in
    let e2 = then_returned _ _ _ (inserts_answered answers evs base base (n + 1) all) in
    let c3 = working_on base (n + 1 + length evs) (add_events evs base) in
    let e3 = then_returned _ _ _ (query_answered answers (change (put_checkpoint cp)) c3 (all _)) in
    ap (λ r. r.0) (e1 ∙ e2 ∙ e3 ∙ query_answered answers commit _ (all _))

conclude-returned :
    (answers : ℕ → Answer) (evs : List DecodedEvent)
    (r : Outcome Failure (Unit {0}) × Client Tables)
    → r.0 ≡ returned tt
    → (conclude answers evs r).outcome ≡ returned tt
unfolding conclude
conclude-returned answers evs (returned u, c) h = refl
conclude-returned answers evs (thrown e, c) h = absurd (cc)

not_thrown : (e : Failure) → ◌≡◌ {A = Outcome Failure (Unit {0})} (returned tt) (thrown e) → ⊥
not_thrown e h = cc

-- Where a client is to be had and every query is answered, `persistLedger` returns, and
-- `getCheckpoint` then reads back the checkpoint that was written, if its sequence is a safe
-- integer; a larger one makes `getCheckpoint` throw.
pub persist_ledger-get_checkpoint :
    (answers : ℕ → Answer) (evs : List DecodedEvent) (cp : Checkpoint) (base : Tables) (n : ℕ)
    → ((m : ℕ) → answers m ≡ answered)
    → let p =
        persist_ledger true answers evs cp
          (record { committed = base; working = none; asked = n }) in
      (p.outcome ≡ returned tt)
      × (get_checkpoint p.client.committed
          ≡ (if leb cp.sequence max_safe then returned (some cp) else thrown cp.sequence))
unfolding get_checkpoint read_checkpoint persist_ledger AllOrNothing written conclude
persist_ledger-get_checkpoint answers evs cp base n all =
    let o = conclude-returned answers evs _ (write_answered answers evs cp base n all) in
    (
      o,
      elim (persist_ledger-AllOrNothing true answers evs cp base n) [
        | inl h ↦ ap get_checkpoint h.1
        | inr h ↦ absurd (not_thrown h.0 (sym o ∙ h.1))
      ],
    )
