-- ===== src/Reorg.antt =====
-- Reorg detection: `detectReorg` of indexer/src/reorg.js. The stored window, which
-- `db.getIndexedLedgers` would read if it were defined, and the RPC node's answer are arguments; a
-- failed request is passed on.
pub mod Lowest
mod Tests
use Prim.Native.String.{String}
use native.Mathlib.Decide.{ℕ_discrete}
use text.Mathlib.Text.{◌==◌ as str_eq}
use pero_j.Base.{
  ℕ, ◌+◌, ◌-◌, Bool, true, false, not, Option, none, some, List, [], ◌∷◌, Outcome, returned, thrown,
  ◌>>=◌, if◌then◌else◌,
}
use pero_j.Base.Dict.{Dict, lookup}

abbrev pub reorg_window : ℕ
reorg_window = 32

pub record Indexed : Type 0 where
  pub ledger : ℕ
  pub hash : String

-- `current !== undefined && current !== hash`
unfoldable pub diverges : Dict ℕ String → Indexed → Bool
diverges canonical s = elim (lookup ℕ_discrete s.ledger canonical) [
  | none ↦ false
  | some current ↦ not (str_eq current s.hash)
]

unfoldable pub first_divergence : Dict ℕ String → List Indexed → Option ℕ
first_divergence canonical [] = none
first_divergence canonical (s ∷ ss) =
    let rest = first_divergence canonical ss in if diverges canonical s then some s.ledger else rest

unfoldable pub last_ledger : Indexed → List Indexed → ℕ
last_ledger s [] = s.ledger
last_ledger s (t ∷ ts) = last_ledger t ts

unfoldable pub detect_reorg :
    {E : Type 0} → (ℕ → ℕ → Outcome E (Dict ℕ String)) → List Indexed → Outcome E (Option ℕ)
detect_reorg get_hashes [] = returned none
detect_reorg get_hashes (s ∷ ss) =
    get_hashes s.ledger (last_ledger s ss - s.ledger + 1) >>= λ canonical.
    returned (first_divergence canonical (s ∷ ss))
