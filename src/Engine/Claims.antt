-- ===== src/Engine/Claims.antt =====
-- What `claimPayout` of scripts/verify_invariants.js pays, on balanced books and fair markets.
use native.Mathlib.Nat.{zero-mul, div-mul-le_self}
use native.Mathlib.Decide.{ℕ_discrete}
use pero_j.Base.{
  ℕ, ◌+◌, ◌*◌, ◌/◌, ◌≤◌, ◌<◌, ◌≡◌, ◌≢◌, refl, sym, ap, subst, ◌∙◌, Bool, true, false, none, some,
  List, [], ◌∷◌, if◌then◌else◌, Outcome, returned, arith, inl, inr, Option-cases,
}
use pero_j.Base.Int.{ℤ, pos, pos_part, ◌+ℤ◌, ◌-ℤ◌, ◌≤ℤ◌, eqb_ℤ, int_laws, +ℤ-zero, pos_part-+ℤ}
use pero_j.Base.Dict.{lookup, insert, lookup-insert_self}
use pero_j.Engine.{
  Error, Bet, Market, Engine, pay, claim_payout, actual_payout, winning_pool, total_pool,
  claim_bets,
}
use pero_j.Engine.Balance.{IsBalanced, liability, total-insert, checked_lem, checked_state}
use pero_j.Engine.Stakes.{
  side_total, claimed_stake, open_stake, claim_bets-stake, claim_bets-claimed_stake,
  claim_bets-side_total, claim_bets-IsStaked, claimed-open-le,
}
use pero_j.Engine.Fair.{
  IsFair, stakes, share_room, payout_uncapped, winning_pool_lem, total_pool_lem,
  side_total-le-stakes,
}

module _ {Name : Type 0} (dec : Discrete Name) (id user : Name) where
  -- The market after a claim that finds `stake` and pays `paid`.
  abbrev pub after_claim : Market Name → ℤ → Market Name
  after_claim m paid = record m {
    bets = (claim_bets dec user m.winning_outcome (pos 0) m.bets).1;
    claimed = m.claimed +ℤ paid;
  }

  abbrev owed_to : Market Name → Bool → ℕ
  owed_to m s = open_stake dec user s m.bets * stakes m.bets / side_total s m.bets

  stake_lem :
      (m : Market Name) (s : Bool)
      → IsFair m
      → m.winning_outcome ≡ some s
      → (claim_bets dec user m.winning_outcome (pos 0) m.bets).0
        ≡ pos (open_stake dec user s m.bets)
  stake_lem m s f e = rw e (claim_bets-stake dec user s 0 m.bets f.staked ∙ ap pos (omega arith))

  credit_after :
      (m : Market Name) (p : ℕ) (s : Bool)
      → IsFair m
      → m.winning_outcome ≡ some s
      → p * side_total s m.bets ≤ open_stake dec user s m.bets * stakes m.bets
      → pos_part (m.claimed +ℤ pos p) * side_total s (after_claim m (pos p)).bets
        ≤ claimed_stake s (after_claim m (pos p)).bets * stakes (after_claim m (pos p)).bets
  credit_after m p s f e h =
      let side = λ (t : Bool). claim_bets-side_total dec user m.winning_outcome t (pos 0) m.bets in
      rw (pos_part-+ℤ m.claimed (pos p) f.paid (omega arith), side s, side true, side false, e)
        (rw (claim_bets-claimed_stake dec user s (pos 0) m.bets) (grind (arith, f.credit s e)))

  -- A claim that pays no more than the user's share keeps the market fair.
  pub after_claim-IsFair :
      (m : Market Name) (p : ℕ)
      → IsFair m
      → m.resolved ≡ true
      → ((s : Bool)
          → m.winning_outcome ≡ some s
          → p * side_total s m.bets ≤ open_stake dec user s m.bets * stakes m.bets)
      → IsFair (after_claim m (pos p))
  after_claim-IsFair m p f r h = record {
    staked = claim_bets-IsStaked dec user m.winning_outcome (pos 0) m.bets f.staked;
    yes_pool = rw claim_bets-side_total f.yes_pool;
    no_pool = rw claim_bets-side_total f.no_pool;
    paid = omega (int_laws, f.paid);
    open_market = λ u. absurd (cc);
    credit = λ s e. credit_after m p s f e (h s e);
  }

  abbrev Pays : Market Name → ℕ → Outcome Error ℤ × Engine Name → Type 0
  Pays m p (r, e) =
      (r ≡ returned (pos p)) × (lookup dec id e.markets ≡ some (after_claim m (pos p)))

  pay_nothing :
      (m : Market Name) (e : Engine Name)
      → (claim_bets dec user m.winning_outcome (pos 0) m.bets).0 ≡ pos 0
      → Pays m 0 (pay dec id user m e)
  unfolding pay
  pay_nothing m e h =
      let marked : Market Name = record m {
        bets = (claim_bets dec user m.winning_outcome (pos 0) m.bets).1;
      } in
      ground (arith, lookup-insert_self dec id marked e.markets, +ℤ-zero m.claimed)

  -- What a claim books, on every branch.
  abbrev pub booked : Market Name → ℤ
  booked m =
      let stake = (claim_bets dec user m.winning_outcome (pos 0) m.bets).0 in
      if eqb_ℤ stake (pos 0) then pos 0 else actual_payout m stake

  pub pay-markets :
      (m : Market Name) (e : Engine Name)
      → (pay dec id user m e).1.markets ≡ insert dec id (after_claim m (booked m)) e.markets
  unfolding pay
  pay-markets m e =
      let paid = actual_payout m (claim_bets dec user m.winning_outcome (pos 0) m.bets).0 in
      ground (
        arith,
        +ℤ-zero m.claimed,
        checked_state paid (record e {
          contract_balance = e.contract_balance -ℤ paid;
          markets = insert dec id (after_claim m paid) e.markets;
        }),
      )

  claim_bets-none : (acc : ℤ) (bs : List (Bet Name)) → (claim_bets dec user none acc bs).0 ≡ acc
  unfolding claim_bets
  claim_bets-none acc [] = refl
  claim_bets-none acc (b ∷ bs) = ground (arith, claim_bets-none acc bs)

  booked-none : (m : Market Name) → m.winning_outcome ≡ none → booked m ≡ pos 0
  booked-none m e = ground (arith, claim_bets-none (pos 0) m.bets)

  booked-some :
      (m : Market Name) (s : Bool)
      → IsFair m
      → m.winning_outcome ≡ some s
      → 0 < side_total s m.bets
      → booked m ≡ pos (owed_to m s)
  booked-some m s f e w = ground (
    arith,
    stake_lem m s f e,
    zero-mul (stakes m.bets),
    payout_uncapped m s (open_stake dec user s m.bets) f e w (claimed-open-le dec user s m.bets),
  )

  rounded_share :
      (m : Market Name) (s t : Bool)
      → s ≡ t
      → owed_to m s * side_total t m.bets ≤ open_stake dec user t m.bets * stakes m.bets
  rounded_share m s t e = rw (← e) (div-mul-le_self _ _)

  -- A claim keeps the market fair.
  pub booked-IsFair :
      (m : Market Name)
      → IsFair m
      → m.resolved ≡ true
      → winning_pool m ≢ pos 0
      → IsFair (after_claim m (booked m))
  booked-IsFair m f r w = elim (Option-cases m.winning_outcome) [
    | inl undecided ↦
        subst (λ p. IsFair (after_claim m p)) (sym (booked-none m undecided))
          (after_claim-IsFair m 0 f r (λ s e. absurd (cc)))
    | inr (s, won) ↦
        let pool : 0 < side_total s m.bets = ground (arith, winning_pool_lem m s f won) in
        subst (λ p. IsFair (after_claim m p)) (sym (booked-some m s f won pool))
          (after_claim-IsFair m (owed_to m s) f r (λ t e. rounded_share m s t (cc)))
  ]

  pay_share :
      (m : Market Name) (p u : ℕ) (e : Engine Name)
      → lookup dec id e.markets ≡ some m
      → IsBalanced e
      → (claim_bets dec user m.winning_outcome (pos 0) m.bets).0 ≡ pos u
      → u ≢ 0
      → actual_payout m (pos u) ≡ pos p
      → Pays m p (pay dec id user m e)
  unfolding pay
  pay_share m p u e found h stake some_stake pays =
      let e' : Engine Name = record e {
        contract_balance = e.contract_balance -ℤ pos p;
        markets = insert dec id (after_claim m (pos p)) e.markets;
      } in
      let balanced : IsBalanced e' =
        omega (int_laws, total-insert dec liability id (after_claim m (pos p)) m e.markets found) in
      ground (
        arith,
        checked_lem (pos p) e' balanced,
        lookup-insert_self dec id (after_claim m (pos p)) e.markets,
      )

  pay_fair :
      (m : Market Name) (s : Bool) (e : Engine Name)
      → lookup dec id e.markets ≡ some m
      → IsBalanced e
      → IsFair m
      → m.winning_outcome ≡ some s
      → 0 < side_total s m.bets
      → Pays m (owed_to m s) (pay dec id user m e)
  pay_fair m s e found h f won w = elim (ℕ_discrete (open_stake dec user s m.bets) 0) [
    | yes none_left ↦
        subst (λ p. Pays m p (pay dec id user m e)) (sym (nothing_owed none_left))
          (pay_nothing m e (stake_lem m s f won ∙ ap pos none_left))
    | no some_left ↦
        pay_share m (owed_to m s) (open_stake dec user s m.bets) e found h (stake_lem m s f won)
          some_left (payout_uncapped m s _ f won w (claimed-open-le dec user s m.bets))
  ]
    where
      nothing_owed : open_stake dec user s m.bets ≡ 0 → owed_to m s ≡ 0
      nothing_owed z = rw z (rw zero-mul (omega arith))

  -- What has been paid never exceeds the pools.
  pub claimed-le-total_pool :
      (m : Market Name) (s : Bool)
      → IsFair m
      → m.winning_outcome ≡ some s
      → 0 < side_total s m.bets
      → m.claimed ≤ℤ total_pool m
  claimed-le-total_pool m s f won w =
      let counted : claimed_stake s m.bets + 0 ≤ side_total s m.bets =
        omega (arith, claimed-open-le dec user s m.bets) in
      let room =
        share_room (pos_part m.claimed) (claimed_stake s m.bets) 0 (stakes m.bets)
          (side_total s m.bets) w (f.credit s won) counted in
      rw (total_pool_lem m f) (omega (arith, f.paid))

  -- On balanced books, a winner of a fair market is paid the stake's proportional share of both
  -- pools, rounded down, with nothing cut off by the cap; the stake is then marked as claimed,
  -- and the payout is booked.
  pub claim_payout-share :
      (m : Market Name) (s : Bool) (e : Engine Name)
      → lookup dec id e.markets ≡ some m
      → IsBalanced e
      → IsFair m
      → m.resolved ≡ true
      → m.winning_outcome ≡ some s
      → 0 < side_total s m.bets
      → let (r, e') = claim_payout dec id user e in
        (r ≡ returned (pos (open_stake dec user s m.bets * stakes m.bets / side_total s m.bets)))
        × (lookup dec id e'.markets
            ≡ some (
                after_claim m
                  (pos (open_stake dec user s m.bets * stakes m.bets / side_total s m.bets))))
  unfolding claim_payout
  claim_payout-share m s e found h f r won w = ground (
    arith,
    winning_pool_lem m s f won,
    total_pool_lem m f,
    side_total-le-stakes s m.bets,
    pay_fair m s e found h f won w,
  )
