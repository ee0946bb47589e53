-- ===== src/Oracle/Calls.antt =====
-- Concurrent calls of `submitExpiredMarket` of oracle/src/workers/auto-submitter.js, of one daemon
-- or of several on the same table of markets.
use pero_j.Base.{ℕ, ◌≡◌, refl, Bool, true, Option, none, some, List, [], ◌∷◌, ◌++◌, ite, arith, suc}
use pero_j.Oracle.{
  Status, Phase, claimed, Event, mark_failed, mark_lost, submit_lost, Move, move, claim,
}

-- The markets' statuses, the calls under way, what is on the chain, and the markets whose
-- submission threw after the chain took the outcome, or whose `UPDATE ... 'submitted'` threw, one
-- entry for each time.
pub record System (K : Type 0) : Type 0 where
  pub status : K → Status
  pub calls : List (K × Phase)
  pub chain : List (K × Bool)
  pub unmarked : List K

unfoldable pub push_chain : {K : Type 0} → K → Option Bool → List (K × Bool) → List (K × Bool)
push_chain k none chain = chain
push_chain k (some o) chain = (k, o) ∷ chain

unfoldable pub push_unmarked : {K : Type 0} → K → Event → List K → List K
push_unmarked k mark_failed ks = k ∷ ks
push_unmarked k mark_lost ks = k ∷ ks
push_unmarked k submit_lost ks = k ∷ ks
push_unmarked k _ ks = ks

unfoldable pub push_call : {K : Type 0} → K → Option Phase → List (K × Phase) → List (K × Phase)
push_call k none calls = calls
push_call k (some p) calls = (k, p) ∷ calls

module _ {K : Type 0} (dec : Discrete K) where
  unfoldable pub write : K → Option Status → (K → Status) → K → Status
  write k none status j = status j
  write k (some s) status j = ite (dec k j) s (status j)

  -- Any call may take the next step.
  pub data Reachable (status : K → Status) : System K → Type 0 where
    started : Reachable status (record { status = status; calls = []; chain = []; unmarked = [] })
    claims :
        (k : K) (s : System K)
        → Reachable status s
        → (claim (s.status k)).0 ≡ true
        → Reachable status (record s {
          status = write k (some (claim (s.status k)).1) s.status;
          calls = (k, claimed) ∷ s.calls;
        })
    moves :
        (k : K) (p : Phase) (e : Event) (m : Move) (st : K → Status)
        (before behind : List (K × Phase)) (chain : List (K × Bool)) (unmarked : List K)
        → move p e ≡ some m
        → Reachable status (record {
          status = st;
          calls = before ++ (k, p) ∷ behind;
          chain = chain;
          unmarked = unmarked;
        })
        → Reachable status (record {
          status = write k m.status st;
          calls = push_call k m.next (before ++ behind);
          chain = push_chain k m.on_chain chain;
          unmarked = push_unmarked k e unmarked;
        })

  -- The phases of a market's calls.
  unfoldable pub phases : K → List (K × Phase) → List Phase
  phases k [] = []
  phases k ((j, p) ∷ calls) = let rest = phases k calls in ite (dec j k) (p ∷ rest) rest

  unfoldable pub on_chain : K → List (K × Bool) → ℕ
  on_chain k [] = 0
  on_chain k ((j, o) ∷ chain) = let rest = on_chain k chain in ite (dec j k) (suc rest) rest

  unfoldable pub times_unmarked : K → List K → ℕ
  times_unmarked k [] = 0
  times_unmarked k (j ∷ js) = let rest = times_unmarked k js in ite (dec j k) (suc rest) rest

  pub phases-append :
      (k : K) (xs ys : List (K × Phase)) → phases k (xs ++ ys) ≡ phases k xs ++ phases k ys
  unfolding phases
  phases-append k [] ys = refl
  phases-append k ((j, p) ∷ xs) ys = ground (arith, phases-append k xs ys)
