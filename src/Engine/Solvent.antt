-- ===== src/Engine/Solvent.antt =====
-- Fair pools and payouts after any sequence of calls on the engine of scripts/verify_invariants.js.
use native.Mathlib.Nat.{div-mul-le_self, mul-le-mul_left}
use pero_j.Base.{
  ℕ, ◌*◌, ◌/◌, ◌≤◌, ◌<◌, ◌≡◌, ◌≢◌, sym, subst, Bool, true, false, some, List, [], ◌∷◌, returned,
  arith, inl, inr, Option-cases, All,
}
use pero_j.Base.Int.{
  ℤ, pos, negsuc, pos_part, ◌+ℤ◌, ◌-ℤ◌, ◌/ℤ◌, ◌≤ℤ◌, int_laws, pos-*ℤ, pos_of_nonneg,
}
use pero_j.Base.Dict.{lookup, insert, Values, lookup-Values, insert-Values}
use pero_j.Engine
use pero_j.Engine.{
  Error, violation, Bet, Market, Engine, Method, new_engine, new_market, checked, add_bet, bet_fee,
  decide_market, take_bet, pay, claim_bets, actual_payout, winning_pool, total_pool,
}
use pero_j.Engine.Balance.{checked_state}
use pero_j.Engine.Stakes.{side_total, open_stake}
use pero_j.Engine.Fair.{IsFair, stakes, new_market-IsFair, add_bet-IsFair, resolve-IsFair}
use pero_j.Engine.Run.{run-IsBalanced, Call, place_bet, call, run}
use pero_j.Engine.Claims.{pay-markets, booked-IsFair, claim_payout-share, claimed-le-total_pool}

fee_le : (a r : ℕ) → r ≤ 10000 → a * r / 10000 ≤ a
fee_le a r h =
    let within : a * r ≤ a * 10000 = mul-le-mul_left a h in
    omega (arith, div-mul-le_self (a * r) 10000)

-- A fee rate between 0% and 100% leaves a net amount of zero or more.
net_amount_lem :
    (amount rate : ℤ)
    → pos 0 ≤ℤ amount
    → pos 0 ≤ℤ rate
    → rate ≤ℤ pos 10000
    → pos 0 ≤ℤ amount -ℤ bet_fee amount rate
unfolding bet_fee ◌/ℤ◌
net_amount_lem (pos a) (pos r) ha hr hm = rw pos-*ℤ (omega (int_laws, fee_le a r (omega arith)))
net_amount_lem (pos a) (negsuc r) ha hr hm = absurd (omega arith)
net_amount_lem (negsuc a) rate ha hr hm = absurd (omega arith)

module _ {Name : Type 0} where
  abbrev pub HasRate : Call Name → Type 0
  HasRate (place_bet id user is_yes amount rate) = (pos 0 ≤ℤ rate) × (rate ≤ℤ pos 10000)
  HasRate _ = Unit

  abbrev pub AllFair : Engine Name → Type 0
  AllFair e = All (λ entry. IsFair entry.1) e.markets

module _ {Name : Type 0} (dec : Discrete Name) where
  IsFair-at :
      (id : Name) (m : Market Name) (e : Engine Name)
      → AllFair e
      → lookup dec id e.markets ≡ some m
      → IsFair m
  IsFair-at id m e h found = lookup-Values dec IsFair id m e.markets h found

  create_market-AllFair :
      (id : Name) (e : Engine Name) → AllFair e → AllFair (Engine.create_market dec id e).1
  unfolding Engine.create_market
  create_market-AllFair id e h =
      grind
        (arith, checked_state, insert-Values dec IsFair id new_market e.markets h new_market-IsFair)

  take_bet-AllFair :
      (id : Name) (m : Market Name) (user : Name) (is_yes : Bool) (amount rate : ℤ)
      (e : Engine Name)
      → lookup dec id e.markets ≡ some m
      → AllFair e
      → pos 0 ≤ℤ rate
      → rate ≤ℤ pos 10000
      → m.resolved ≡ false
      → pos 0 ≤ℤ amount
      → AllFair (take_bet dec id m user is_yes amount rate e)
  unfolding take_bet
  take_bet-AllFair id m user is_yes amount rate e found h lo hi unresolved positive =
      let net = amount -ℤ bet_fee amount rate in
      let n : net ≡ pos (pos_part net) =
        pos_of_nonneg net (net_amount_lem amount rate positive lo hi) in
      insert-Values dec IsFair id (add_bet m user is_yes net) e.markets h (
        subst (λ k. IsFair (add_bet m user is_yes k)) (sym n)
          (add_bet-IsFair m user is_yes (pos_part net) (IsFair-at id m e h found) unresolved))

  place_bet-AllFair :
      (id user : Name) (is_yes : Bool) (amount rate : ℤ) (e : Engine Name)
      → AllFair e
      → pos 0 ≤ℤ rate
      → rate ≤ℤ pos 10000
      → AllFair (Engine.place_bet dec id user is_yes amount rate e).1
  unfolding Engine.place_bet
  place_bet-AllFair id user is_yes amount rate e h lo hi =
      elim (Option-cases (lookup dec id e.markets)) [
        | inl missing ↦ ground (arith, h)
        | inr (m, found) ↦ ground (
          arith,
          h,
          checked_state tt (take_bet dec id m user is_yes amount rate e),
          take_bet-AllFair id m user is_yes amount rate e found h lo hi,
        )
      ]

  resolved-AllFair :
      (id : Name) (m : Market Name) (outcome : Bool) (e : Engine Name)
      → AllFair e
      → lookup dec id e.markets ≡ some m
      → m.resolved ≡ false
      → AllFair (record e { markets = insert dec id (decide_market m outcome) e.markets })
  resolved-AllFair id m outcome e h found unresolved =
      insert-Values dec IsFair id _ e.markets h
        (resolve-IsFair m outcome (IsFair-at id m e h found) unresolved)

  resolve_market-AllFair :
      (id : Name) (outcome : Bool) (e : Engine Name)
      → AllFair e
      → AllFair (Engine.resolve_market dec id outcome e).1
  unfolding Engine.resolve_market
  resolve_market-AllFair id outcome e h = elim (Option-cases (lookup dec id e.markets)) [
    | inl missing ↦ ground (arith, h)
    | inr (m, found) ↦ ground (
      arith,
      h,
      checked_state tt (record e { markets = insert dec id (decide_market m outcome) e.markets }),
      resolved-AllFair id m outcome e h found,
    )
  ]

  pay-AllFair :
      (id user : Name) (m : Market Name) (e : Engine Name)
      → AllFair e
      → lookup dec id e.markets ≡ some m
      → m.resolved ≡ true
      → winning_pool m ≢ pos 0
      → AllFair (pay dec id user m e).1
  pay-AllFair id user m e h found r w =
      subst (λ ms. Values dec IsFair ms) (sym (pay-markets dec id user m e))
        (insert-Values dec IsFair id _ e.markets h
          (booked-IsFair dec id user m (IsFair-at id m e h found) r w))

  claim_payout-AllFair :
      (id user : Name) (e : Engine Name) → AllFair e → AllFair (Engine.claim_payout dec id user e).1
  unfolding Engine.claim_payout
  claim_payout-AllFair id user e h = elim (Option-cases (lookup dec id e.markets)) [
    | inl missing ↦ ground (arith, h)
    | inr (m, found) ↦ ground (arith, h, pay-AllFair id user m e h found)
  ]

  escrow_bond-markets :
      (id : Name) (amount : ℤ) (e : Engine Name)
      → (Engine.escrow_bond dec id amount e).1.markets ≡ e.markets
  unfolding Engine.escrow_bond checked Engine.assert_invariant
  escrow_bond-markets id amount e = ground arith

  settle_bond-markets :
      (id : Name) (refund : Bool) (e : Engine Name)
      → (Engine.settle_bond dec id refund e).1.markets ≡ e.markets
  unfolding Engine.settle_bond checked Engine.assert_invariant
  settle_bond-markets id refund e = ground arith

  withdraw_fees-markets :
      (amount : ℤ) (e : Engine Name) → (Engine.withdraw_fees amount e).1.markets ≡ e.markets
  unfolding Engine.withdraw_fees checked Engine.assert_invariant
  withdraw_fees-markets amount e = ground arith

  call-AllFair :
      (c : Call Name) (e : Engine Name) → HasRate c → AllFair e → AllFair (call dec c e).1
  unfolding call
  call-AllFair (Call.create_market id) e r h = create_market-AllFair id e h
  call-AllFair (Call.place_bet id user is_yes amount rate) e r h =
      place_bet-AllFair id user is_yes amount rate e h r.0 r.1
  call-AllFair (Call.escrow_bond id amount) e r h =
      subst (Values dec IsFair) (sym (escrow_bond-markets id amount e)) h
  call-AllFair (Call.settle_bond id refund) e r h =
      subst (Values dec IsFair) (sym (settle_bond-markets id refund e)) h
  call-AllFair (Call.resolve_market id outcome) e r h = resolve_market-AllFair id outcome e h
  call-AllFair (Call.claim_payout id user) e r h = claim_payout-AllFair id user e h
  call-AllFair (Call.withdraw_fees amount) e r h =
      subst (Values dec IsFair) (sym (withdraw_fees-markets amount e)) h

  run_from-AllFair :
      (cs : List (Call Name)) (e : Engine Name)
      → All HasRate cs
      → AllFair e
      → AllFair (run dec cs e).1
  unfolding run
  run_from-AllFair [] e r h = h
  run_from-AllFair (c ∷ cs) e r h =
      run_from-AllFair cs (call dec c e).1 r.1 (call-AllFair c e r.0 h)

  -- After any calls whose fee rates lie between 0 and 10000 basis points, a user who claims on a
  -- resolved market with stakes on the winning side is paid exactly the unclaimed winning stake
  -- times both pools over the winning pool, rounded down: the cap in `claimPayout` changes no
  -- payout, and the market has not paid more than its pools.
  pub run-solvent :
      (cs : List (Call Name)) (id user : Name) (m : Market Name) (s : Bool)
      → All HasRate cs
      → let e = (run dec cs new_engine).1 in
        lookup dec id e.markets ≡ some m
        → m.resolved ≡ true
        → m.winning_outcome ≡ some s
        → 0 < side_total s m.bets
        → ((Engine.claim_payout dec id user e).0
            ≡ returned (pos (open_stake dec user s m.bets * stakes m.bets / side_total s m.bets)))
          × (m.claimed ≤ℤ m.total_yes +ℤ m.total_no)
  run-solvent cs id user m s r found resolved won w =
      let e = (run dec cs new_engine).1 in
      let fair = IsFair-at id m e (run_from-AllFair cs new_engine r tt) found in
      (
        (claim_payout-share dec id user m s e found (run-IsBalanced dec cs).1 fair resolved won
            w).0,
        claimed-le-total_pool dec id user m s fair won w,
      )
