-- ===== src/Engine.antt =====
-- The audit engine of scripts/verify_invariants.js: `class InvariantEngine`, method by method. It
-- replays bets, bonds, claims and fees, and after each of them compares the contract's balance
-- with what it owes. Amounts are BigInts. Market ids, bond ids and users are only compared.
-- A method that throws leaves the fields that it has written as they are.
pub mod Balance
pub mod Stakes
pub mod Fair
pub mod Claims
pub mod Run
pub mod Solvent
pub mod Repeat
mod Tests
use pero_j.Base.{
  ℕ, zero, suc, ◌+◌, ◌≡◌, Bool, true, false, ◌&&◌, not, Option, none, some, List, [], ◌∷◌, ◌++◌,
  if◌then◌else◌, Outcome, returned, thrown, ite, Bool,
}
use pero_j.Base.Int.{ℤ, pos, ◌+ℤ◌, ◌-ℤ◌, ◌*ℤ◌, ◌/ℤ◌, leb_ℤ, ltb_ℤ, eqb_ℤ}
use pero_j.Base.Dict.{Dict, lookup, insert, erase}

pub data Error : Type 0 where
  market_exists market_missing already_resolved not_resolved bad_amount : Error
  bond_exists bond_missing insufficient_fees violation : Error

-- An entry of `market.bets`; `claimed` is absent, hence falsy, until a claim sets it.
pub record Bet (Name : Type 0) : Type 0 where
  pub user : Name
  pub is_yes : Bool
  pub amount : ℤ
  pub claimed : Bool

pub record Market (Name : Type 0) : Type 0 where
  pub total_yes : ℤ
  pub total_no : ℤ
  pub claimed : ℤ
  pub resolved : Bool
  pub winning_outcome : Option Bool
  pub bets : List (Bet Name)

pub record Engine (Name : Type 0) : Type 0 where
  pub contract_balance : ℤ
  pub accumulated_fees : ℤ
  pub markets : Dict Name (Market Name)
  pub escrowed_bonds : Dict Name ℤ
  pub step_count : ℕ

-- A method call: how it ends, and the engine after it.
abbrev pub Method : Type 0 → Type 0 → Type 0
Method Name A = Engine Name → Outcome Error A × Engine Name

module _ {Name : Type 0} where
  abbrev pub new_engine : Engine Name
  new_engine = record {
    contract_balance = pos 0;
    accumulated_fees = pos 0;
    markets = [];
    escrowed_bonds = [];
    step_count = 0;
  }

  abbrev pub new_market : Market Name
  new_market = record {
    total_yes = pos 0;
    total_no = pos 0;
    claimed = pos 0;
    resolved = false;
    winning_outcome = none;
    bets = [];
  }

  pub market_liabilities_from : ℤ → Dict Name (Market Name) → ℤ
  market_liabilities_from sum [] = sum
  market_liabilities_from sum ((_, m) ∷ ms) =
      market_liabilities_from (sum +ℤ (m.total_yes +ℤ m.total_no -ℤ m.claimed)) ms

  pub sum_market_liabilities : Engine Name → ℤ
  sum_market_liabilities e = market_liabilities_from (pos 0) e.markets

  pub bonds_from : ℤ → Dict Name ℤ → ℤ
  bonds_from sum [] = sum
  bonds_from sum ((_, amount) ∷ bs) = bonds_from (sum +ℤ amount) bs

  pub sum_escrowed_bonds : Engine Name → ℤ
  sum_escrowed_bonds e = bonds_from (pos 0) e.escrowed_bonds

  pub assert_invariant : Method Name (Unit {0})
  assert_invariant e =
      let e' = record e { step_count = e.step_count + 1 } in
      let expected = sum_market_liabilities e' +ℤ e'.accumulated_fees +ℤ sum_escrowed_bonds e' in
      (if eqb_ℤ e'.contract_balance expected then returned tt else thrown violation, e')

  -- The call of `assertInvariant` that ends a method which then returns `a`.
  pub checked : {A : Type 0} → A → Method Name A
  checked a e =
      let (r, e') = assert_invariant e in
      (elim r [ returned _ ↦ returned a | thrown x ↦ thrown x ], e')

  -- The pool and the list of bets, after a bet of `net_amount`.
  pub add_bet : Market Name → Name → Bool → ℤ → Market Name
  add_bet m user is_yes net_amount =
      let bet : Bet Name = record {
        user = user;
        is_yes = is_yes;
        amount = net_amount;
        claimed = false;
      } in
      record m {
        total_yes = if is_yes then m.total_yes +ℤ net_amount else m.total_yes;
        total_no = if is_yes then m.total_no else m.total_no +ℤ net_amount;
        bets = m.bets ++ bet ∷ [];
      }

  pub decide_market : Market Name → Bool → Market Name
  decide_market m outcome = record m { resolved = true; winning_outcome = some outcome }

pub bet_fee : ℤ → ℤ → ℤ
bet_fee amount fee_rate_bps = amount *ℤ fee_rate_bps /ℤ pos 10000

-- `b.isYes === winningSide`: `null` equals no Boolean.
abbrev pub on_side : Option Bool → Bool → Bool
on_side none b = false
on_side (some true) b = b
on_side (some false) b = not b

module _ {Name : Type 0} where
  abbrev pub winning_pool : Market Name → ℤ
  winning_pool m = elim m.winning_outcome [ some true ↦ m.total_yes | _ ↦ m.total_no ]

  abbrev pub total_pool : Market Name → ℤ
  total_pool m = m.total_yes +ℤ m.total_no

  -- The proportional share, and the cap on it.
  pub share : Market Name → ℤ → ℤ
  share m stake = stake *ℤ total_pool m /ℤ winning_pool m

  pub actual_payout : Market Name → ℤ → ℤ
  actual_payout m stake =
      let payout = share m stake in
      let max_remaining = total_pool m -ℤ m.claimed in
      if ltb_ℤ max_remaining payout then max_remaining else payout

module _ {Name : Type 0} (dec : Discrete Name) where
  pub create_market : Name → Method Name (Unit {0})
  create_market id e = elim (lookup dec id e.markets) [
    | some _ ↦ (thrown market_exists, e)
    | none ↦ checked tt (record e { markets = insert dec id new_market e.markets })
  ]

  -- `placeBet` once the market is found and open and the amount is positive.
  pub take_bet : Name → Market Name → Name → Bool → ℤ → ℤ → Engine Name → Engine Name
  take_bet id m user is_yes amount fee_rate_bps e =
      let fee = bet_fee amount fee_rate_bps in
      record e {
        contract_balance = e.contract_balance +ℤ amount;
        accumulated_fees = e.accumulated_fees +ℤ fee;
        markets = insert dec id (add_bet m user is_yes (amount -ℤ fee)) e.markets;
      }

  pub place_bet : Name → Name → Bool → ℤ → ℤ → Method Name (Unit {0})
  place_bet id user is_yes amount fee_rate_bps e = elim (lookup dec id e.markets) [
    | none ↦ (thrown market_missing, e)
    | some m ↦
        if m.resolved
        then (thrown already_resolved, e)
        else if leb_ℤ amount (pos 0)
        then (thrown bad_amount, e)
        else checked tt (take_bet id m user is_yes amount fee_rate_bps e)
  ]

  pub escrow_bond : Name → ℤ → Method Name (Unit {0})
  escrow_bond id amount e = elim (lookup dec id e.escrowed_bonds) [
    | some _ ↦ (thrown bond_exists, e)
    | none ↦
        if leb_ℤ amount (pos 0)
        then (thrown bad_amount, e)
        else checked tt (record e {
          contract_balance = e.contract_balance +ℤ amount;
          escrowed_bonds = insert dec id amount e.escrowed_bonds;
        })
  ]

  pub settle_bond : Name → Bool → Method Name (Unit {0})
  settle_bond id recipient_refund e = elim (lookup dec id e.escrowed_bonds) [
    | none ↦ (thrown bond_missing, e)
    | some amount ↦ checked tt (record e {
      escrowed_bonds = erase dec id e.escrowed_bonds;
      contract_balance =
          if recipient_refund then e.contract_balance -ℤ amount else e.contract_balance;
      accumulated_fees =
          if recipient_refund then e.accumulated_fees else e.accumulated_fees +ℤ amount;
    })
  ]

  pub resolve_market : Name → Bool → Method Name (Unit {0})
  resolve_market id winning_outcome e = elim (lookup dec id e.markets) [
    | none ↦ (thrown market_missing, e)
    | some m ↦
        if m.resolved
        then (thrown already_resolved, e)
        else checked tt
            (record e { markets = insert dec id (decide_market m winning_outcome) e.markets })
  ]

  abbrev pub wins : Name → Option Bool → Bet Name → Bool
  wins user side b = ite (dec b.user user) true false && (on_side side b.is_yes && not b.claimed)

  -- The loop of `claimPayout`: the stake so far, and the bets marked.
  pub claim_bets : Name → Option Bool → ℤ → List (Bet Name) → ℤ × List (Bet Name)
  claim_bets user side stake [] = (stake, [])
  claim_bets user side stake (b ∷ bs) =
      let hit = wins user side b in
      let (stake', bs') = claim_bets user side (if hit then stake +ℤ b.amount else stake) bs in
      (stake', record b { claimed = if hit then true else b.claimed } ∷ bs')

  -- `claimPayout` on a resolved market whose pools are not empty.
  pub pay : Name → Name → Market Name → Method Name ℤ
  pay id user m e =
      let (stake, bets') = claim_bets user m.winning_outcome (pos 0) m.bets in
      let marked : Market Name = record m { bets = bets' } in
      if eqb_ℤ stake (pos 0)
      then (returned (pos 0), record e { markets = insert dec id marked e.markets })
      else let paid = actual_payout m stake in
        let m' : Market Name = record marked { claimed = m.claimed +ℤ paid } in
        checked paid (record e {
          contract_balance = e.contract_balance -ℤ paid;
          markets = insert dec id m' e.markets;
        })

  pub claim_payout : Name → Name → Method Name ℤ
  claim_payout id user e = elim (lookup dec id e.markets) [
    | none ↦ (thrown market_missing, e)
    | some m ↦
        if m.resolved
        then if eqb_ℤ (winning_pool m) (pos 0)
          then (returned (pos 0), e)
          else if eqb_ℤ (total_pool m) (pos 0)
          then (returned (pos 0), e)
          else pay id user m e
        else (thrown not_resolved, e)
  ]

module _ {Name : Type 0} where
  pub withdraw_fees : ℤ → Method Name (Unit {0})
  withdraw_fees amount e =
      if ltb_ℤ e.accumulated_fees amount
      then (thrown insufficient_fees, e)
      else checked tt (record e {
        accumulated_fees = e.accumulated_fees -ℤ amount;
        contract_balance = e.contract_balance -ℤ amount;
      })
