-- ===== src/Engine/Run.antt =====
-- Sequences of method calls on the engine of scripts/verify_invariants.js, each caught where it
-- throws, as `runSimulation` does: what holds after any of them.
use pero_j.Base.{◌≢◌, Bool, Option, none, some, List, [], ◌∷◌, Outcome, returned, thrown, All}
use pero_j.Base.Int.{ℤ, int_laws}
use pero_j.Engine
use pero_j.Engine.{
  Error, violation, Bet, Market, Engine, Method, new_engine, new_market, checked, add_bet, bet_fee,
  take_bet, pay, claim_bets, actual_payout, winning_pool, total_pool,
}
use pero_j.Engine.Balance.{
  IsBalanced, Keeps, create_market-Keeps, place_bet-Keeps, escrow_bond-Keeps, settle_bond-Keeps,
  resolve_market-Keeps, claim_payout-Keeps, withdraw_fees-Keeps,
}

pub data Call (Name : Type 0) : Type 0 where
  create_market : Name → Call Name
  place_bet : Name → Name → Bool → ℤ → ℤ → Call Name
  escrow_bond : Name → ℤ → Call Name
  settle_bond : Name → Bool → Call Name
  resolve_market : Name → Bool → Call Name
  claim_payout : Name → Name → Call Name
  withdraw_fees : ℤ → Call Name

-- What a `catch` sees of a call.
abbrev pub caught : {A : Type 0} → Outcome Error A → Option Error
caught (returned _) = none
caught (thrown x) = some x

abbrev pub report : {Name A : Type 0} → Outcome Error A × Engine Name → Option Error × Engine Name
report (r, e) = (caught r, e)

module _ {Name : Type 0} (dec : Discrete Name) where
  unfoldable pub call : Call Name → Engine Name → Option Error × Engine Name
  call (create_market id) e = report (Engine.create_market dec id e)
  call (place_bet id user is_yes amount rate) e =
      report (Engine.place_bet dec id user is_yes amount rate e)
  call (escrow_bond id amount) e = report (Engine.escrow_bond dec id amount e)
  call (settle_bond id refund) e = report (Engine.settle_bond dec id refund e)
  call (resolve_market id outcome) e = report (Engine.resolve_market dec id outcome e)
  call (claim_payout id user) e = report (Engine.claim_payout dec id user e)
  call (withdraw_fees amount) e = report (Engine.withdraw_fees amount e)

  -- What each call threw, and the engine at the end.
  unfoldable pub run : List (Call Name) → Engine Name → List (Option Error) × Engine Name
  run [] e = ([], e)
  run (c ∷ cs) e = let (x, e') = call c e in let (xs, e'') = run cs e' in (x ∷ xs, e'')

  caught_ne : {A : Type 0} (r : Outcome Error A) → r ≢ thrown violation → caught r ≢ some violation
  caught_ne (returned a) h = λ p. cc
  caught_ne (thrown x) h = λ p. h (cc)

  report-Keeps :
      {A : Type 0} (o : Outcome Error A × Engine Name)
      → Keeps o
      → ((report o).0 ≢ some violation) × IsBalanced (report o).1
  report-Keeps o h = (caught_ne o.0 h.0, h.1)

  call-IsBalanced :
      (c : Call Name) (e : Engine Name)
      → IsBalanced e
      → ((call c e).0 ≢ some violation) × IsBalanced (call c e).1
  unfolding call
  call-IsBalanced (create_market id) e h =
      report-Keeps (Engine.create_market dec id e) (create_market-Keeps dec id e h)
  call-IsBalanced (place_bet id user is_yes amount rate) e h =
      report-Keeps (Engine.place_bet dec id user is_yes amount rate e)
        (place_bet-Keeps dec id user is_yes amount rate e h)
  call-IsBalanced (escrow_bond id amount) e h =
      report-Keeps (Engine.escrow_bond dec id amount e) (escrow_bond-Keeps dec id amount e h)
  call-IsBalanced (settle_bond id refund) e h =
      report-Keeps (Engine.settle_bond dec id refund e) (settle_bond-Keeps dec id refund e h)
  call-IsBalanced (resolve_market id outcome) e h =
      report-Keeps (Engine.resolve_market dec id outcome e)
        (resolve_market-Keeps dec id outcome e h)
  call-IsBalanced (claim_payout id user) e h =
      report-Keeps (Engine.claim_payout dec id user e) (claim_payout-Keeps dec id user e h)
  call-IsBalanced (withdraw_fees amount) e h =
      report-Keeps (Engine.withdraw_fees amount e) (withdraw_fees-Keeps amount e h)

  run_from-IsBalanced :
      (cs : List (Call Name)) (e : Engine Name)
      → IsBalanced e
      → All (λ x. x ≢ some violation) (run cs e).0 × IsBalanced (run cs e).1
  unfolding run
  run_from-IsBalanced [] e h = (tt, h)
  run_from-IsBalanced (c ∷ cs) e h =
      let (fine, h') = call-IsBalanced c e h in
      let (rest, h'') = run_from-IsBalanced cs (call c e).1 h' in ((fine, rest), h'')

  -- From a new engine, whatever methods are called with whatever arguments, no call ends in an
  -- invariant violation, and the balance at the end is the sum of the market liabilities, the
  -- fees and the bonds in escrow.
  pub run-IsBalanced :
      (cs : List (Call Name))
      → let (xs, e) = run cs new_engine in All (λ x. x ≢ some violation) xs × IsBalanced e
  run-IsBalanced cs = run_from-IsBalanced cs new_engine (omega int_laws)
