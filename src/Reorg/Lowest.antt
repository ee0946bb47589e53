-- ===== src/Reorg/Lowest.antt =====
-- The ledger that `detectReorg` of indexer/src/reorg.js reports.
use Prim.Native.String.{String}
use mathlib.Core.Path.{subst}
use pero_j.Base.{
  ℕ, ◌+◌, ◌-◌, ◌<◌, ◌≡◌, refl, ◌⊎◌, inl, inr, true, false, Option, none, some, List, [], ◌∷◌,
  Outcome, returned, arith, Bool-cases, All, bind_returned,
}
use pero_j.Base.Dict.{Dict}
use pero_j.Reorg.{Indexed, diverges, first_divergence, last_ledger, detect_reorg}

-- The ledgers of the window ascend.
unfoldable pub Ascends : List Indexed → Type 0
Ascends [] = Unit
Ascends (s ∷ ss) = All (λ t. s.ledger < t.ledger) ss × Ascends ss

-- The ledger is in the window, with a hash that the node contradicts.
unfoldable pub ForksAt : Dict ℕ String → ℕ → List Indexed → Type 0
ForksAt canonical n [] = ⊥
ForksAt canonical n (s ∷ ss) =
    ((s.ledger ≡ n) × (diverges canonical s ≡ true)) ⊎ ForksAt canonical n ss

unfoldable pub IsLowest : Dict ℕ String → Option ℕ → List Indexed → Type 0
IsLowest canonical none ss = All (λ s. diverges canonical s ≡ false) ss
IsLowest canonical (some n) ss =
    ForksAt canonical n ss × All (λ s. (s.ledger < n → diverges canonical s ≡ false)) ss

above :
    (canonical : Dict ℕ String) (n : ℕ) (ss : List Indexed)
    → All (λ t. n < t.ledger) ss
    → All (λ s. (s.ledger < n → diverges canonical s ≡ false)) ss
above canonical n [] h = tt
above canonical n (s ∷ ss) h = ((λ l. absurd (omega (arith, l, h.0))), above canonical n ss h.1)

extended :
    (canonical : Dict ℕ String) (s : Indexed) (ss : List Indexed) (found : Option ℕ)
    → diverges canonical s ≡ false
    → IsLowest canonical found ss
    → IsLowest canonical found (s ∷ ss)
unfolding IsLowest ForksAt
extended canonical s ss none e h = (e, h)
extended canonical s ss (some n) e h = (inr h.0, ((λ l. e), h.1))

of_returned :
    {E : Type 0} (a b : Option ℕ) → ◌≡◌ {A = Outcome E (Option ℕ)} (returned a) (returned b) → a ≡ b
of_returned a b h = cc

first_divergence-IsLowest :
    (canonical : Dict ℕ String) (ss : List Indexed)
    → Ascends ss
    → IsLowest canonical (first_divergence canonical ss) ss
unfolding first_divergence IsLowest Ascends ForksAt
first_divergence-IsLowest canonical [] a = tt
first_divergence-IsLowest canonical (s ∷ ss) a = elim (Bool-cases (diverges canonical s)) [
  | inl e ↦
      rw (first_divergence, e)
        (inl (refl, e), ((λ l. absurd (omega (arith, l))), above canonical s.ledger ss a.0))
  | inr e ↦
      rw (first_divergence, e)
        (extended canonical s ss (first_divergence canonical ss) e
          (first_divergence-IsLowest canonical ss a.1))
]

-- If the ledgers of the stored window ascend, the RPC node is asked for its range, and if it answers:
-- no ledger is reported exactly if it contradicts no stored hash, and otherwise the reported ledger
-- is the lowest one of the window whose hash it contradicts. A ledger that the node does not answer
-- for contradicts nothing.
pub detect_reorg-IsLowest :
    {E : Type 0} (get_hashes : ℕ → ℕ → Outcome E (Dict ℕ String)) (s : Indexed) (ss : List Indexed)
    (found : Option ℕ)
    → Ascends (s ∷ ss)
    → detect_reorg get_hashes (s ∷ ss) ≡ returned found
    → (canonical : Dict ℕ String) × (get_hashes s.ledger (last_ledger s ss - s.ledger + 1)
        ≡ returned canonical)
      × IsLowest canonical found (s ∷ ss)
unfolding detect_reorg
detect_reorg-IsLowest {E = E} get_hashes s ss found a h =
    let (canonical, p, q) =
      bind_returned (get_hashes s.ledger (last_ledger s ss - s.ledger + 1)) _ found h in
    (
      canonical,
      p,
      subst (λ f. IsLowest canonical f (s ∷ ss)) (of_returned _ _ q)
          (first_divergence-IsLowest canonical (s ∷ ss) a),
    )
