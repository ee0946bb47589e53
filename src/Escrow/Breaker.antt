-- ===== src/Escrow/Breaker.antt =====
-- The circuit breaker of indexer/src/bond-escrow-worker.js over sequences of calls.
use pero_j.Base.{
  ◌≢◌, ◌⊎◌, ◌↔◌, ℕ, ◌-◌, ◌≤◌, ◌≡◌, refl, sym, ◌∙◌, true, false, List, [], ◌∷◌, returned, thrown,
  ltb, take, length, arith, inl, inr, Bool-cases, zero, suc, All,
}
use pero_j.Base.Int.{eq_of_parts, parts_of_eq, ℤ, ◌-ℤ◌, eqb_ℤ}
use pero_j.Escrow.{
  Leakage, assert_invariant, Report, Auditor, new_auditor, is_resolution_allowed,
  halt_automated_resolution, trip_circuit_breaker, reset_circuit_breaker, add_report, accounting_of,
  actual_holdings, Inputs, audit, verify_escrow_invariant, amount, passed, violated,
}

-- The calls that a worker gets.
pub data Call (E : Type 0) : Type 0 where
  verify : Inputs E → Call E
  halt : Call E
  reset : Call E

unfoldable pub perform : {E : Type 0} → Call E → Auditor → Auditor
perform (verify i) w = (verify_escrow_invariant i w).1
perform halt w = halt_automated_resolution w
perform reset w = reset_circuit_breaker w

-- The calls latest first.
unfoldable pub after : {E : Type 0} → List (Call E) → Auditor
after [] = new_auditor
after (c ∷ cs) = let w = after cs in perform c w

-- Whether an audit finds the escrow short or in excess.
unfoldable pub Leaks : {E : Type 0} → Inputs E → Type 0
Leaks i =
    let a = accounting_of i.accounting in
    amount a.total_bonds_deposited -ℤ amount a.total_bonds_settled
    ≢ amount (actual_holdings i.contract_balance i.get_contract_balance a)

-- No audit since the last reset leaked, and nothing halted the resolution since.
unfoldable pub IsClear : {E : Type 0} → List (Call E) → Type 0
IsClear [] = Unit
IsClear (verify i ∷ cs) = (Leaks i → ⊥) × IsClear cs
IsClear (halt ∷ cs) = ⊥
IsClear (reset ∷ cs) = Unit

-- A report that says that resolution is allowed is about an audit that passed.
unfoldable pub Sound : Report → Type 0
Sound (passed t a b allowed) = Unit
Sound (violated t d c halted) = (c.tripped ≡ true) × (halted ≡ true)

eq_of_eqb : (a b : ℤ) → eqb_ℤ a b ≡ true → a ≡ b
eq_of_eqb a b h = eq_of_parts a b (ground arith)

ne_of_eqb : (a b : ℤ) → eqb_ℤ a b ≡ false → a ≢ b
ne_of_eqb a b h e = let p = parts_of_eq a b e in ground arith

take-All : {A : Type 0} (P : A → Type 0) (n : ℕ) (xs : List A) → All P xs → All P (take n xs)
take-All P zero xs h = tt
take-All P (suc n) [] h = tt
take-All P (suc n) (x ∷ xs) h = (h.0, take-All P n xs h.1)

length-take : {A : Type 0} (n : ℕ) (xs : List A) → length (take n xs) ≤ n
length-take zero xs = omega arith
length-take (suc n) [] = omega arith
length-take (suc n) (x ∷ xs) = omega (arith, length-take n xs)

unfoldable pub Kept : Auditor → Type 0
Kept w = (length w.audit_history ≤ 50) × All Sound w.audit_history

add_report-Kept : (r : Report) (w : Auditor) → Sound r → Kept w → Kept (add_report r w)
unfolding add_report Kept
add_report-Kept r w s k =
    let longer = r ∷ w.audit_history in
    let n = length longer - 1 in
    elim (Bool-cases (ltb 50 (length longer))) [
      | inl e ↦ rw e (omega (arith, length-take n longer, k.0), take-All Sound n longer (s, k.1))
      | inr e ↦ rw e (ground (arith, e), (s, k.1))
    ]

module _ {E : Type 0} where
  audit_cases :
      (i : Inputs E)
      → ((audit i ≡ returned tt) × (Leaks i → ⊥)) ⊎ ((d : Leakage) × (audit i ≡ thrown d) × Leaks i)
  unfolding audit assert_invariant Leaks
  audit_cases i =
      let a = accounting_of i.accounting in
      let expected = amount a.total_bonds_deposited -ℤ amount a.total_bonds_settled in
      let actual = amount (actual_holdings i.contract_balance i.get_contract_balance a) in
      elim (Bool-cases (eqb_ℤ expected actual)) [
        | inl e ↦ inl (rw (audit, e) refl, λ l. l (eq_of_eqb expected actual e))
        | inr e ↦ inr (
          record {
            total_bonds_deposited = amount a.total_bonds_deposited;
            total_bonds_settled = amount a.total_bonds_settled;
            expected_escrow_holdings = expected;
            current_escrow_holdings = actual;
            leakage_amount = expected -ℤ actual;
          },
          rw (audit, e) refl,
          ne_of_eqb expected actual e,
        )
      ]

  verify_clear :
      (i : Inputs E) (w : Auditor)
      → audit i ≡ returned tt
      → let v = (verify_escrow_invariant i w).1 in
        (is_resolution_allowed v ≡ is_resolution_allowed w) × (Kept w → Kept v)
  unfolding verify_escrow_invariant is_resolution_allowed add_report Sound
  verify_clear i w e =
      let a = accounting_of i.accounting in
      let holdings = actual_holdings i.contract_balance i.get_contract_balance a in
      let r = passed i.now a holdings (is_resolution_allowed w) in
      (
        rw (verify_escrow_invariant, e) refl,
        λ k. rw (verify_escrow_invariant, e) (add_report-Kept r w tt k),
      )

  verify_leak :
      (i : Inputs E) (w : Auditor) (d : Leakage)
      → audit i ≡ thrown d
      → let v = (verify_escrow_invariant i w).1 in
        (is_resolution_allowed v ≡ false) × (Kept w → Kept v)
  unfolding verify_escrow_invariant is_resolution_allowed add_report trip_circuit_breaker
      halt_automated_resolution Sound Kept
  verify_leak i w d e =
      let v = trip_circuit_breaker d i.now w in
      let r = violated i.now d v.circuit_breaker v.automated_resolution_halted in
      (
        rw (verify_escrow_invariant, e) refl,
        λ k. rw (verify_escrow_invariant, e) (add_report-Kept r v (refl, refl) k),
      )

  -- After any calls, latest first, resolution is allowed exactly if every audit since the last
  -- reset found the deposits less the settlements equal to the holdings, and nothing halted the
  -- resolution since. The history keeps at most 50 reports, and every violation that it reports
  -- says that the breaker is tripped and the resolution halted.
  pub after-allowed :
      (calls : List (Call E))
      → ((is_resolution_allowed (after calls) ≡ true) ↔ IsClear calls) × Kept (after calls)
  unfolding after IsClear perform Kept is_resolution_allowed halt_automated_resolution
      reset_circuit_breaker
  after-allowed [] = ((λ h. tt, λ h. refl), (omega arith, tt))
  after-allowed (reset ∷ cs) = ((λ h. tt, λ h. refl), (after-allowed cs).1)
  after-allowed (halt ∷ cs) =
      ((λ h. absurd (ground (arith, h)), λ h. absurd h), (after-allowed cs).1)
  after-allowed (verify i ∷ cs) =
      let (same, kept) = after-allowed cs in
      elim (audit_cases i) [
        | inl (e, ok) ↦
            let (s, k) = verify_clear i (after cs) e in
            ((λ h. (ok, same.0 (sym s ∙ h)), λ h. s ∙ same.1 h.1), k kept)
        | inr (d, e, leaks) ↦
            let (s, k) = verify_leak i (after cs) d e in
            ((λ h. absurd (ground (arith, s, h)), λ h. absurd (h.0 leaks)), k kept)
      ]
