-- ===== src/Oracle/Moves.antt =====
-- What one step of a call of `submitExpiredMarket` of oracle/src/workers/auto-submitter.js does to
-- the market that it is about, and that it leaves every other market alone.
use pero_j.Base.{◌+◌, ◌≡◌, ◌≢◌, refl, Bool, Option, none, some, List, ◌∷◌, ◌++◌, arith}
use pero_j.Oracle.{Status, Phase, Event}
use pero_j.Oracle.Calls.{
  push_chain, push_unmarked, push_call, write, phases, on_chain, times_unmarked, phases-append,
}
use pero_j.Oracle.Shape.{extra, lost, over, phase_list}

module _ {K : Type 0} (dec : Discrete K) where
  pub write_self :
      (k : K) (o : Option Status) (st : K → Status) → write dec k o st k ≡ over o (st k)
  unfolding write over
  write_self k none st = refl
  write_self k (some s) st = ground arith

  pub write_other :
      (k j : K) (o : Option Status) (st : K → Status) → k ≢ j → write dec k o st j ≡ st j
  unfolding write
  write_other k j none st h = refl
  write_other k j (some s) st h = ground arith

  pub phases_self :
      (k : K) (o : Option Phase) (xs : List (K × Phase))
      → phases dec k (push_call k o xs) ≡ phase_list o ++ phases dec k xs
  unfolding phases push_call phase_list
  phases_self k none xs = refl
  phases_self k (some p) xs = ground arith

  pub phases_other :
      (k j : K) (o : Option Phase) (xs : List (K × Phase))
      → k ≢ j
      → phases dec j (push_call k o xs) ≡ phases dec j xs
  unfolding phases push_call
  phases_other k j none xs h = refl
  phases_other k j (some p) xs h = ground arith

  pub on_chain_self :
      (k : K) (o : Option Bool) (xs : List (K × Bool))
      → on_chain dec k (push_chain k o xs) ≡ extra o + on_chain dec k xs
  unfolding on_chain push_chain extra
  on_chain_self k none xs = omega arith
  on_chain_self k (some o) xs = ground arith

  pub on_chain_other :
      (k j : K) (o : Option Bool) (xs : List (K × Bool))
      → k ≢ j
      → on_chain dec j (push_chain k o xs) ≡ on_chain dec j xs
  unfolding on_chain push_chain
  on_chain_other k j none xs h = refl
  on_chain_other k j (some p) xs h = ground arith

  pub unmarked_self :
      (k : K) (e : Event) (xs : List K)
      → times_unmarked dec k (push_unmarked k e xs) ≡ lost e + times_unmarked dec k xs
  unfolding times_unmarked push_unmarked lost
  unmarked_self k e xs = ground arith

  pub unmarked_other :
      (k j : K) (e : Event) (xs : List K)
      → k ≢ j
      → times_unmarked dec j (push_unmarked k e xs) ≡ times_unmarked dec j xs
  unfolding times_unmarked push_unmarked
  unmarked_other k j e xs h = ground arith

  pub middle_self :
      (k : K) (p : Phase) (xs ys : List (K × Phase))
      → phases dec k (xs ++ (k, p) ∷ ys) ≡ phases dec k xs ++ p ∷ phases dec k ys
  unfolding phases
  middle_self k p xs ys = ground (arith, phases-append dec k xs ((k, p) ∷ ys))

  pub middle_other :
      (k j : K) (p : Phase) (xs ys : List (K × Phase))
      → k ≢ j
      → phases dec j (xs ++ (k, p) ∷ ys) ≡ phases dec j (xs ++ ys)
  unfolding phases
  middle_other k j p xs ys h =
      ground (arith, phases-append dec j xs ((k, p) ∷ ys), phases-append dec j xs ys)
