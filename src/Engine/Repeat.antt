-- ===== src/Engine/Repeat.antt =====
-- A second `claimPayout` by the same user (scripts/verify_invariants.js).
use pero_j.Base.{◌≡◌, ◌⊎◌, true, some, returned, arith, inl, inr, Option-cases}
use pero_j.Base.Int.{ℤ, pos}
use pero_j.Base.Dict.{lookup, lookup-insert_self}
use pero_j.Engine.{Market, Engine, pay, claim_payout, claim_bets}
use pero_j.Engine.Stakes.{claim_bets_again}
use pero_j.Engine.Claims.{after_claim, booked, pay-markets}

module _ {Name : Type 0} (dec : Discrete Name) (id user : Name) where
  claim_again_marked :
      (m : Market Name) (p : ℤ)
      → (claim_bets dec user
          (after_claim dec id user m p).winning_outcome
          (pos 0)
          (after_claim dec id user m p).bets).0
        ≡ pos 0
  claim_again_marked m p = claim_bets_again dec user m.winning_outcome (pos 0) (pos 0) m.bets

  pay_marked :
      (m : Market Name) (p : ℤ) (e : Engine Name)
      → (pay dec id user (after_claim dec id user m p) e).0 ≡ returned (pos 0)
  unfolding pay
  pay_marked m p e = ground (arith, claim_again_marked m p)

  claim_marked :
      (m : Market Name) (p : ℤ) (e : Engine Name)
      → lookup dec id e.markets ≡ some (after_claim dec id user m p)
      → m.resolved ≡ true
      → (claim_payout dec id user e).0 ≡ returned (pos 0)
  unfolding claim_payout
  claim_marked m p e found r = ground (arith, pay_marked m p e)

  -- How a claim that returns has gone: it found nothing to pay and changed nothing, or it paid.
  claim_returned :
      (e : Engine Name) (p : ℤ)
      → (claim_payout dec id user e).0 ≡ returned p
      → (m : Market Name) × (lookup dec id e.markets ≡ some m)
        × (m.resolved ≡ true)
        × ((claim_payout dec id user e ≡ (returned (pos 0), e))
            ⊎ (claim_payout dec id user e ≡ pay dec id user m e))
  unfolding claim_payout
  claim_returned e p h = elim (Option-cases (lookup dec id e.markets)) [
    | inl missing ↦ absurd (ground arith)
    | inr (m, found) ↦ (m, found, ground arith, ground arith)
  ]

  -- A claim that has returned cannot be repeated: the same user's next claim on the market
  -- returns zero.
  pub claim_payout_again :
      (e : Engine Name) (p : ℤ)
      → (claim_payout dec id user e).0 ≡ returned p
      → (claim_payout dec id user (claim_payout dec id user e).1).0 ≡ returned (pos 0)
  claim_payout_again e p h =
      let (m, found, r, how) = claim_returned e p h in
      elim how [
        | inl nothing ↦ rw nothing (rw nothing)
        | inr paid ↦ rw paid (
            claim_marked m (booked dec id user m) (pay dec id user m e).1
              (rw pay-markets (
                lookup-insert_self dec id (after_claim dec id user m (booked dec id user m))
                  e.markets))
              r)
      ]
