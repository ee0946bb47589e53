-- ===== src/Engine/Fair.antt =====
-- Payouts of scripts/verify_invariants.js: the pools are the stakes, and the rounded shares of the
-- winners never exceed the pool, so the cap of `claimPayout` is never reached.
use native.Mathlib.Nat.{mul_comm, div-mul-le_self, le_of_mul-le-mul_right, mul-le-mul_right}
use pero_j.Base.{
  ℕ, ◌+◌, ◌*◌, ◌/◌, ◌≤◌, ◌<◌, ◌≡◌, refl, Bool, true, false, none, some, List, if◌then◌else◌, arith,
}
use pero_j.Base.Int.{ℤ, pos, pos_part, ◌-ℤ◌, ◌/ℤ◌, ◌≤ℤ◌, ltb_ℤ, int_laws, pos-+ℤ, pos-*ℤ}
use pero_j.Engine.{
  Bet, Market, new_market, add_bet, decide_market, share, actual_payout, winning_pool, total_pool,
}
use pero_j.Engine.Stakes.{IsStaked, side_total, claimed_stake, side_total-append, append-IsStaked}

-- With `paid` credited so far against the stake `done`, one more rounded share still fits.
pub share_fits :
    (paid done stake all won : ℕ)
    → 0 < won
    → paid * won ≤ done * all
    → done + stake ≤ won
    → (paid + stake * all / won) * won ≤ (done + stake) * all
share_fits paid done stake all won w h k = grind (arith, div-mul-le_self (stake * all) won)

pub share_room :
    (paid done stake all won : ℕ)
    → 0 < won
    → paid * won ≤ done * all
    → done + stake ≤ won
    → paid + stake * all / won ≤ all
share_room paid done stake all won w h k =
    let fits = share_fits paid done stake all won w h k in
    let within : (done + stake) * all ≤ won * all = mul-le-mul_right all k in
    let bound : (paid + stake * all / won) * won ≤ all * won = omega (arith, mul_comm won all) in
    le_of_mul-le-mul_right bound w

cap_unreached :
    (room payout : ℤ) → payout ≤ℤ room → (if ltb_ℤ room payout then room else payout) ≡ payout
cap_unreached room payout h = ground arith

module _ {Name : Type 0} where
  abbrev pub stakes : List (Bet Name) → ℕ
  stakes bs = side_total true bs + side_total false bs

  pub record IsFair (m : Market Name) : Type 0 where
    pub staked : IsStaked m.bets
    pub yes_pool : m.total_yes ≡ pos (side_total true m.bets)
    pub no_pool : m.total_no ≡ pos (side_total false m.bets)
    pub paid : pos 0 ≤ℤ m.claimed
    pub open_market : m.resolved ≡ false → (m.claimed ≡ pos 0) × (m.winning_outcome ≡ none)
    pub credit :
        (s : Bool)
        → m.winning_outcome ≡ some s
        → pos_part m.claimed * side_total s m.bets ≤ claimed_stake s m.bets * stakes m.bets

  pub winning_pool_lem :
      (m : Market Name) (s : Bool)
      → IsFair m
      → m.winning_outcome ≡ some s
      → winning_pool m ≡ pos (side_total s m.bets)
  winning_pool_lem m true f e = rw e f.yes_pool
  winning_pool_lem m false f e = rw e f.no_pool

  pub total_pool_lem : (m : Market Name) → IsFair m → total_pool m ≡ pos (stakes m.bets)
  total_pool_lem m f = rw (f.yes_pool, f.no_pool) (pos-+ℤ _ _)

  pub share_lem :
      (m : Market Name) (s : Bool) (u : ℕ)
      → IsFair m
      → m.winning_outcome ≡ some s
      → share m (pos u) ≡ pos (u * stakes m.bets / side_total s m.bets)
  unfolding share ◌/ℤ◌
  share_lem m s u f e = rw (winning_pool_lem m s f e, total_pool_lem m f, pos-*ℤ)

  pub side_total-le-stakes : (s : Bool) (bs : List (Bet Name)) → side_total s bs ≤ stakes bs
  side_total-le-stakes true bs = omega arith
  side_total-le-stakes false bs = omega arith

  -- The cap is never reached.
  pub payout_uncapped :
      (m : Market Name) (s : Bool) (u : ℕ)
      → IsFair m
      → m.winning_outcome ≡ some s
      → 0 < side_total s m.bets
      → claimed_stake s m.bets + u ≤ side_total s m.bets
      → actual_payout m (pos u) ≡ pos (u * stakes m.bets / side_total s m.bets)
  unfolding actual_payout
  payout_uncapped m s u f e w k =
      let room =
        share_room (pos_part m.claimed) (claimed_stake s m.bets) u (stakes m.bets)
          (side_total s m.bets) w (f.credit s e) k in
      rw (share_lem m s u f e, total_pool_lem m f)
        (cap_unreached (pos (stakes m.bets) -ℤ m.claimed)
          (pos (u * stakes m.bets / side_total s m.bets)) (omega (int_laws, f.paid)))

  -- Every method keeps the markets fair, one lemma for each change of a market.
  pub new_market-IsFair : IsFair (new_market {Name = Name})
  new_market-IsFair = record {
    staked = tt;
    yes_pool = omega int_laws;
    no_pool = omega int_laws;
    paid = omega arith;
    open_market = λ _. (refl, refl);
    credit = λ s e. absurd (cc);
  }

  pub add_bet-IsFair :
      (m : Market Name) (user : Name) (is_yes : Bool) (n : ℕ)
      → IsFair m
      → m.resolved ≡ false
      → IsFair (add_bet m user is_yes (pos n))
  unfolding add_bet
  add_bet-IsFair m user is_yes n f unresolved =
      let bet : Bet Name = record {
        user = user;
        is_yes = is_yes;
        amount = pos n;
        claimed = false;
      } in
      record {
        staked = append-IsStaked m.bets bet f.staked (omega arith);
        yes_pool =
            grind (arith, side_total-append true m.bets bet, pos-+ℤ (side_total true m.bets) n);
        no_pool =
            grind (arith, side_total-append false m.bets bet, pos-+ℤ (side_total false m.bets) n);
        paid = f.paid;
        open_market = f.open_market;
        credit = λ s e. absurd (grind (arith, f.open_market unresolved, e));
      }

  pub resolve-IsFair :
      (m : Market Name) (outcome : Bool)
      → IsFair m
      → m.resolved ≡ false
      → IsFair (decide_market m outcome)
  unfolding decide_market
  resolve-IsFair m outcome f unresolved = record {
    staked = f.staked;
    yes_pool = f.yes_pool;
    no_pool = f.no_pool;
    paid = f.paid;
    open_market = λ e. absurd (cc);
    credit = λ s e. rw ((f.open_market unresolved).0) (omega arith);
  }
