-- ===== src/Engine/Balance.antt =====
-- The books of scripts/verify_invariants.js balance after every method: `assertInvariant` never
-- throws.
use pero_j.Base.{
  ◌+◌, ◌≡◌, ◌≢◌, refl, sym, ◌∙◌, Bool, true, false, none, some, [], ◌∷◌, if◌then◌else◌, Outcome,
  returned, thrown, arith, inl, inr, Option-cases,
}
use pero_j.Base.Int.{ℤ, pos, ◌+ℤ◌, ◌-ℤ◌, eqb_ℤ, int_laws}
use pero_j.Base.Dict.{Dict, lookup, insert, erase}
use pero_j.Engine.{
  Error, violation, Market, Engine, new_market, market_liabilities_from, sum_market_liabilities,
  bonds_from, sum_escrowed_bonds, assert_invariant, checked, create_market, take_bet, place_bet,
  add_bet, bet_fee, decide_market, escrow_bond, settle_bond, resolve_market, pay, claim_payout,
  withdraw_fees, actual_payout, claim_bets,
}

-- The sum of a measure over a `Map`, as a plain recursion.
module _ {K V : Type 0} (f : V → ℤ) where
  abbrev pub total : Dict K V → ℤ
  total [] = pos 0
  total ((_, v) ∷ m) = f v +ℤ total m

module _ {K V : Type 0} (dec : Discrete K) (f : V → ℤ) (k : K) where
  pub total-insert :
      (v old : V) (m : Dict K V)
      → lookup dec k m ≡ some old
      → total f (insert dec k v m) +ℤ f old ≡ total f m +ℤ f v
  total-insert v old [] e = cc
  total-insert v old (x ∷ m) e = grind (int_laws, total-insert v old m)

  pub total-insert_new :
      (v : V) (m : Dict K V) → lookup dec k m ≡ none → total f (insert dec k v m) ≡ total f m +ℤ f v
  total-insert_new v [] e = omega int_laws
  total-insert_new v (x ∷ m) e = grind (int_laws, total-insert_new v m)

  pub total-erase :
      (old : V) (m : Dict K V)
      → lookup dec k m ≡ some old
      → total f (erase dec k m) +ℤ f old ≡ total f m
  total-erase old [] e = cc
  total-erase old (x ∷ m) e = grind (int_laws, total-erase old m)

abbrev pub liability : {Name : Type 0} → Market Name → ℤ
liability m = m.total_yes +ℤ m.total_no -ℤ m.claimed

abbrev pub bond : ℤ → ℤ
bond amount = amount

eqb_ℤ-true : (a b : ℤ) → a ≡ b → eqb_ℤ a b ≡ true
eqb_ℤ-true a b h = ground arith

module _ {Name : Type 0} where
  liabilities-eq-total :
      (acc : ℤ) (ms : Dict Name (Market Name))
      → market_liabilities_from acc ms ≡ acc +ℤ total liability ms
  unfolding market_liabilities_from
  liabilities-eq-total acc [] = omega int_laws
  liabilities-eq-total acc ((_, m) ∷ ms) =
      rw (liabilities-eq-total (acc +ℤ liability m) ms) (omega int_laws)

  bonds-eq-total : (acc : ℤ) (bs : Dict Name ℤ) → bonds_from acc bs ≡ acc +ℤ total bond bs
  unfolding bonds_from
  bonds-eq-total acc [] = omega int_laws
  bonds-eq-total acc ((_, a) ∷ bs) = rw (bonds-eq-total (acc +ℤ a) bs) (omega int_laws)

  -- The balance is what the markets owe, the fees, and the bonds in escrow.
  abbrev pub IsBalanced : Engine Name → Type 0
  IsBalanced e =
      e.contract_balance
      ≡ total liability e.markets +ℤ e.accumulated_fees +ℤ total bond e.escrowed_bonds

  expected_lem :
      (e : Engine Name)
      → sum_market_liabilities e +ℤ e.accumulated_fees +ℤ sum_escrowed_bonds e
        ≡ total liability e.markets +ℤ e.accumulated_fees +ℤ total bond e.escrowed_bonds
  unfolding sum_market_liabilities sum_escrowed_bonds
  expected_lem e =
      rw (liabilities-eq-total (pos 0) e.markets, bonds-eq-total (pos 0) e.escrowed_bonds)
        (omega int_laws)

  abbrev pub ticked : Engine Name → Engine Name
  ticked e = record e { step_count = e.step_count + 1 }

  pub assert_invariant_lem :
      (e : Engine Name) → IsBalanced e → assert_invariant e ≡ (returned tt, ticked e)
  unfolding assert_invariant
  assert_invariant_lem e h = rw (eqb_ℤ-true _ _ (h ∙ sym (expected_lem (ticked e))))

  pub checked_lem :
      {A : Type 0} (a : A) (e : Engine Name) → IsBalanced e → checked a e ≡ (returned a, ticked e)
  unfolding checked
  checked_lem a e h = rw (assert_invariant_lem e h)

  pub checked_state : {A : Type 0} (a : A) (e : Engine Name) → (checked a e).1 ≡ ticked e
  unfolding checked assert_invariant
  checked_state a e = refl

  -- What a call leaves behind: balanced books, and no violation thrown.
  abbrev pub Keeps : {A : Type 0} → Outcome Error A × Engine Name → Type 0
  Keeps (r, e) = (r ≢ thrown violation) × IsBalanced e

  pub checked-Keeps : {A : Type 0} (a : A) (e : Engine Name) → IsBalanced e → Keeps (checked a e)
  checked-Keeps a e h = rw (checked_lem a e h) ((λ p. cc), h)

  add_bet-liability :
      (m : Market Name) (user : Name) (is_yes : Bool) (net_amount : ℤ)
      → liability (add_bet m user is_yes net_amount) ≡ liability m +ℤ net_amount
  unfolding add_bet
  add_bet-liability m user true net_amount = omega int_laws
  add_bet-liability m user false net_amount = omega int_laws

  decide_market-liability :
      (m : Market Name) (outcome : Bool) → liability (decide_market m outcome) ≡ liability m
  unfolding decide_market
  decide_market-liability m outcome = refl

module _ {Name : Type 0} (dec : Discrete Name) where
  pub create_market-Keeps :
      (id : Name) (e : Engine Name) → IsBalanced e → Keeps (create_market dec id e)
  unfolding create_market
  create_market-Keeps id e h = elim (Option-cases (lookup dec id e.markets)) [
    | inl new ↦ ground (
      arith,
      checked-Keeps tt (record e { markets = insert dec id new_market e.markets })
          (omega (int_laws, total-insert_new dec liability id new_market e.markets new)),
    )
    | inr (m, found) ↦ ground arith
  ]

  take_bet-IsBalanced :
      (id : Name) (m : Market Name) (user : Name) (is_yes : Bool) (amount rate : ℤ)
      (e : Engine Name)
      → lookup dec id e.markets ≡ some m
      → IsBalanced e
      → IsBalanced (take_bet dec id m user is_yes amount rate e)
  unfolding take_bet
  take_bet-IsBalanced id m user is_yes amount rate e found h =
      let net_amount = amount -ℤ bet_fee amount rate in
      let m' = add_bet m user is_yes net_amount in
      omega (
        int_laws,
        total-insert dec liability id m' m e.markets found,
        add_bet-liability m user is_yes net_amount,
      )

  pub place_bet-Keeps :
      (id user : Name) (is_yes : Bool) (amount rate : ℤ) (e : Engine Name)
      → IsBalanced e
      → Keeps (place_bet dec id user is_yes amount rate e)
  unfolding place_bet
  place_bet-Keeps id user is_yes amount rate e h = elim (Option-cases (lookup dec id e.markets)) [
    | inl missing ↦ ground arith
    | inr (m, found) ↦ ground (
      arith,
      checked-Keeps tt (take_bet dec id m user is_yes amount rate e)
          (take_bet-IsBalanced id m user is_yes amount rate e found h),
    )
  ]

  pub escrow_bond-Keeps :
      (id : Name) (amount : ℤ) (e : Engine Name)
      → IsBalanced e
      → Keeps (escrow_bond dec id amount e)
  unfolding escrow_bond
  escrow_bond-Keeps id amount e h = elim (Option-cases (lookup dec id e.escrowed_bonds)) [
    | inl new ↦ ground (
      arith,
      checked-Keeps tt
          (record e {
            contract_balance = e.contract_balance +ℤ amount;
            escrowed_bonds = insert dec id amount e.escrowed_bonds;
          })
          (omega (int_laws, total-insert_new dec bond id amount e.escrowed_bonds new)),
    )
    | inr (a, found) ↦ ground arith
  ]

  pub settle_bond-Keeps :
      (id : Name) (refund : Bool) (e : Engine Name)
      → IsBalanced e
      → Keeps (settle_bond dec id refund e)
  unfolding settle_bond
  settle_bond-Keeps id refund e h = elim (Option-cases (lookup dec id e.escrowed_bonds)) [
    | inl missing ↦ ground arith
    | inr (a, found) ↦ rw (found, settle_bond) (checked-Keeps tt _ (settled refund a found))
  ]
    where
      settled :
          (refund : Bool) (a : ℤ)
          → lookup dec id e.escrowed_bonds ≡ some a
          → IsBalanced (record e {
            escrowed_bonds = erase dec id e.escrowed_bonds;
            contract_balance = if refund then e.contract_balance -ℤ a else e.contract_balance;
            accumulated_fees = if refund then e.accumulated_fees else e.accumulated_fees +ℤ a;
          })
      settled true a found = omega (int_laws, total-erase dec bond id a e.escrowed_bonds found)
      settled false a found = omega (int_laws, total-erase dec bond id a e.escrowed_bonds found)

  pub resolve_market-Keeps :
      (id : Name) (outcome : Bool) (e : Engine Name)
      → IsBalanced e
      → Keeps (resolve_market dec id outcome e)
  unfolding resolve_market
  resolve_market-Keeps id outcome e h = elim (Option-cases (lookup dec id e.markets)) [
    | inl missing ↦ ground arith
    | inr (m, found) ↦
        let m' = decide_market m outcome in
        ground (
          arith,
          checked-Keeps tt (record e { markets = insert dec id m' e.markets })
              (omega (
                int_laws,
                total-insert dec liability id m' m e.markets found,
                decide_market-liability m outcome,
              )),
        )
  ]

  pub pay-Keeps :
      (id user : Name) (m : Market Name) (e : Engine Name)
      → lookup dec id e.markets ≡ some m
      → IsBalanced e
      → Keeps (pay dec id user m e)
  unfolding pay
  pay-Keeps id user m e found h =
      let (stake, bets') = claim_bets dec user m.winning_outcome (pos 0) m.bets in
      let paid = actual_payout m stake in
      let marked : Market Name = record m { bets = bets' } in
      let m' : Market Name = record marked { claimed = m.claimed +ℤ paid } in
      let kept : IsBalanced (record e { markets = insert dec id marked e.markets }) =
        omega (int_laws, total-insert dec liability id marked m e.markets found) in
      ground (
        arith,
        kept,
        checked-Keeps paid
            (record e {
              contract_balance = e.contract_balance -ℤ paid;
              markets = insert dec id m' e.markets;
            })
            (omega (int_laws, total-insert dec liability id m' m e.markets found)),
      )

  pub claim_payout-Keeps :
      (id user : Name) (e : Engine Name) → IsBalanced e → Keeps (claim_payout dec id user e)
  unfolding claim_payout
  claim_payout-Keeps id user e h = elim (Option-cases (lookup dec id e.markets)) [
    | inl missing ↦ ground arith
    | inr (m, found) ↦ ground (arith, pay-Keeps id user m e found h)
  ]

module _ {Name : Type 0} where
  pub withdraw_fees-Keeps :
      (amount : ℤ) (e : Engine Name) → IsBalanced e → Keeps (withdraw_fees amount e)
  unfolding withdraw_fees
  withdraw_fees-Keeps amount e h = ground (
    arith,
    checked-Keeps tt
        (record e {
          accumulated_fees = e.accumulated_fees -ℤ amount;
          contract_balance = e.contract_balance -ℤ amount;
        })
        (omega int_laws),
  )
