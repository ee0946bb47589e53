-- ===== src/Sep41.antt =====
-- `mapWithConcurrency` and the verdict of `validateSep41` in indexer/src/validateSep41.js. Workers
-- share the index of the next item and the results; between taking an item and writing its result
-- each waits for the mapper, so other workers take steps in between. `mapper` gives for each item
-- how its call ends.
pub mod Dense
mod Tests
use pero_j.Base.{
  ◌&&◌, ◌==◌, if◌then◌else◌, ℕ, zero, suc, ◌+◌, ◌<◌, ◌≤◌, Bool, true, false, Option, none, some,
  List, [], ◌∷◌, ◌++◌, ◌≡◌, length, Outcome, returned, thrown,
}

-- `busy` has the items that are with the mapper, one for each worker that is at work, and `results`
-- the slots that were written, latest first.
pub record Pool : Type 0 where
  pub next_index : ℕ
  pub busy : List ℕ
  pub results : List (ℕ × Bool)

-- A mapper that throws counts as `false`.
unfoldable pub result_of : {E : Type 0} → Outcome E Bool → Bool
result_of (returned b) = b
result_of (thrown e) = false

unfoldable pub start : Pool
start = record { next_index = 0; busy = []; results = [] }

unfoldable pub take_item : Pool → Pool
take_item p = record {
  next_index = suc p.next_index;
  busy = p.next_index ∷ p.busy;
  results = p.results;
}

-- With the items that were taken after the one that is written, and before it.
unfoldable pub write_result : ℕ → Bool → (after before : List ℕ) → Pool → Pool
write_result i b after before p = record {
  next_index = p.next_index;
  busy = after ++ before;
  results = (i, b) ∷ p.results;
}

-- `count` items, and `limit` workers at most.
pub data Reachable {E : Type 0} (count limit : ℕ) (mapper : ℕ → Outcome E Bool)
    : Pool → Type 0 where
  started : Reachable count limit mapper start
  took :
      (p : Pool)
      → Reachable count limit mapper p
      → p.next_index < count
      → length p.busy < limit
      → Reachable count limit mapper (take_item p)
  wrote :
      (p : Pool) (i : ℕ) (after before : List ℕ)
      → Reachable count limit mapper p
      → p.busy ≡ after ++ i ∷ before
      → Reachable count limit mapper (write_result i (result_of (mapper i)) after before p)

unfoldable pub slot : ℕ → List (ℕ × Bool) → Option Bool
slot i [] = none
slot i ((j, b) ∷ results) = let rest = slot i results in if j == i then some b else rest

-- `checks[i] === true`
unfoldable pub is_true : Option Bool → Bool
is_true none = false
is_true (some b) = b

-- `every` over the first `count` functions
unfoldable pub compliant : ℕ → List (ℕ × Bool) → Bool
compliant zero results = true
compliant (suc n) results = compliant n results && is_true (slot n results)
