-- ===== src/Engine/Stakes.antt =====
-- What the loop of `claimPayout` (scripts/verify_invariants.js) does to the bets of a market, as
-- sums of stakes.
use pero_j.Base.{
  ℕ, ◌+◌, ◌≤◌, ◌≡◌, refl, Bool, false, ◌&&◌, Option, some, List, [], ◌∷◌, ◌++◌, if◌then◌else◌,
  arith, inl, inr, Bool-cases, All,
}
use pero_j.Base.Int.{ℤ, pos, pos_part, ◌+ℤ◌, ◌≤ℤ◌, pos-+ℤ, pos_of_nonneg}
use pero_j.Engine.{Bet, on_side, wins, claim_bets}

module _ {Name : Type 0} where
  abbrev pub IsStaked : List (Bet Name) → Type 0
  IsStaked = All (λ b. pos 0 ≤ℤ b.amount)

  -- The stakes on one side, and those of them that have been claimed.
  abbrev pub side_total : Bool → List (Bet Name) → ℕ
  side_total s [] = 0
  side_total s (b ∷ bs) =
      (if on_side (some s) b.is_yes then pos_part b.amount else 0) + side_total s bs

  abbrev pub claimed_stake : Bool → List (Bet Name) → ℕ
  claimed_stake s [] = 0
  claimed_stake s (b ∷ bs) =
      (if on_side (some s) b.is_yes && b.claimed then pos_part b.amount else 0) + claimed_stake s bs

  pub side_total-append :
      (s : Bool) (bs : List (Bet Name)) (b : Bet Name)
      → side_total s (bs ++ b ∷ [])
        ≡ side_total s bs + (if on_side (some s) b.is_yes then pos_part b.amount else 0)
  side_total-append s [] b = omega arith
  side_total-append s (x ∷ bs) b = omega (arith, side_total-append s bs b)

  pub claimed_stake-append :
      (s : Bool) (bs : List (Bet Name)) (b : Bet Name)
      → b.claimed ≡ false
      → claimed_stake s (bs ++ b ∷ []) ≡ claimed_stake s bs
  claimed_stake-append s [] b h = ground arith
  claimed_stake-append s (x ∷ bs) b h = omega (arith, claimed_stake-append s bs b h)

  pub append-IsStaked :
      (bs : List (Bet Name)) (b : Bet Name)
      → IsStaked bs
      → pos 0 ≤ℤ b.amount
      → IsStaked (bs ++ b ∷ [])
  append-IsStaked [] b h p = (p, tt)
  append-IsStaked (x ∷ bs) b h p = (h.0, append-IsStaked bs b h.1 p)

module _ {Name : Type 0} (dec : Discrete Name) (user : Name) where
  -- What the user may still claim.
  abbrev pub open_stake : Bool → List (Bet Name) → ℕ
  open_stake s [] = 0
  open_stake s (b ∷ bs) =
      (if wins dec user (some s) b then pos_part b.amount else 0) + open_stake s bs

  pub claim_bets-stake :
      (s : Bool) (acc : ℕ) (bs : List (Bet Name))
      → IsStaked bs
      → (claim_bets dec user (some s) (pos acc) bs).0 ≡ pos (acc + open_stake s bs)
  unfolding claim_bets
  claim_bets-stake s acc [] h = ground arith
  claim_bets-stake s acc (b ∷ bs) h = elim (Bool-cases (wins dec user (some s) b)) [
    | inl hit ↦
        rw
          (
            hit,
            pos_of_nonneg b.amount h.0,
            pos-+ℤ,
            claim_bets-stake s (acc + pos_part b.amount) bs h.1,
          )
          (ground arith)
    | inr miss ↦ rw (miss, claim_bets-stake s acc bs h.1) (ground arith)
  ]

  pub claim_bets-claimed_stake :
      (s : Bool) (acc : ℤ) (bs : List (Bet Name))
      → claimed_stake s (claim_bets dec user (some s) acc bs).1
        ≡ claimed_stake s bs + open_stake s bs
  unfolding claim_bets
  claim_bets-claimed_stake s acc [] = omega arith
  claim_bets-claimed_stake s acc (b ∷ bs) = ground (
    arith,
    claim_bets-claimed_stake s (if wins dec user (some s) b then acc +ℤ b.amount else acc) bs,
  )

  pub claim_bets-side_total :
      (s : Option Bool) (t : Bool) (acc : ℤ) (bs : List (Bet Name))
      → side_total t (claim_bets dec user s acc bs).1 ≡ side_total t bs
  unfolding claim_bets
  claim_bets-side_total s t acc [] = refl
  claim_bets-side_total s t acc (b ∷ bs) =
      omega
        (arith, claim_bets-side_total s t (if wins dec user s b then acc +ℤ b.amount else acc) bs)

  pub claim_bets-IsStaked :
      (s : Option Bool) (acc : ℤ) (bs : List (Bet Name))
      → IsStaked bs
      → IsStaked (claim_bets dec user s acc bs).1
  unfolding claim_bets
  claim_bets-IsStaked s acc [] h = tt
  claim_bets-IsStaked s acc (b ∷ bs) h =
      (h.0, claim_bets-IsStaked s (if wins dec user s b then acc +ℤ b.amount else acc) bs h.1)

  -- No stake is counted twice.
  pub claimed-open-le :
      (s : Bool) (bs : List (Bet Name)) → claimed_stake s bs + open_stake s bs ≤ side_total s bs
  claimed-open-le s [] = omega arith
  claimed-open-le s (b ∷ bs) = ground (arith, claimed-open-le s bs)

  -- A second round of the loop finds nothing.
  pub claim_bets_again :
      (s : Option Bool) (acc acc' : ℤ) (bs : List (Bet Name))
      → (claim_bets dec user s acc' (claim_bets dec user s acc bs).1).0 ≡ acc'
  unfolding claim_bets
  claim_bets_again s acc acc' [] = refl
  claim_bets_again s acc acc' (b ∷ bs) =
      ground
        (arith, claim_bets_again s (if wins dec user s b then acc +ℤ b.amount else acc) acc' bs)
