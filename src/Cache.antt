-- ===== src/Cache.antt =====
-- The in-memory ABI caches of the indexer: `AbiLruCache` of indexer/src/cache.js. Keys are
-- contract ids, values are ABI metadata, and `now` is what `Date.now()` returns at the call, in
-- milliseconds.
pub mod Window
pub mod Trace
pub mod Negative
pub mod Update
mod Tests
use pero_j.Base.{
  ℕ, zero, suc, ◌+◌, ◌*◌, ◌≡◌, Bool, true, false, Option, none, some, List, [], ◌∷◌, ◌++◌,
  if◌then◌else◌, ltb, leb, length, is_some,
}
use pero_j.Base.Dict.{Dict, lookup, has, insert, erase}

pub record Entry (V : Type 0) : Type 0 where
  pub value : V
  pub cached_at : ℕ

pub record Lru (K V : Type 0) : Type 0 where
  pub ttl_ms : ℕ
  pub max_entries : ℕ
  pub store : Dict K (Entry V)

abbrev pub default_ttl_ms : ℕ
default_ttl_ms = 60 * 1000

abbrev pub default_max_entries : ℕ
default_max_entries = 256

module _ {K V : Type 0} where
  -- The loop `while (size > maxEntries)`: the first key is the one to go.
  pub trim : ℕ → Dict K (Entry V) → Dict K (Entry V)
  trim max [] = []
  trim max (e ∷ store) = if ltb max (length (e ∷ store)) then trim max store else e ∷ store

module _ {K V : Type 0} (dec : Discrete K) where
  -- The value or `undefined`, and the cache after the call.
  pub get : K → ℕ → Lru K V → Option V × Lru K V
  get contract_id now c = elim (lookup dec contract_id c.store) [
    | none ↦ (none, c)
    | some entry ↦
        if leb (entry.cached_at + c.ttl_ms) now
        then (none, record c { store = erase dec contract_id c.store })
        else (
          some entry.value,
          record c { store = insert dec contract_id entry (erase dec contract_id c.store) },
        )
  ]

  pub set : K → V → ℕ → Lru K V → Lru K V
  set contract_id value now c =
      let kept = if has dec contract_id c.store then erase dec contract_id c.store else c.store in
      record c {
        store =
            trim c.max_entries
              (insert dec contract_id (record { value = value; cached_at = now }) kept);
      }

  -- Whether an entry was removed, and the cache after the call.
  pub evict : K → Lru K V → Bool × Lru K V
  evict contract_id c =
      (has dec contract_id c.store, record c { store = erase dec contract_id c.store })

module _ {K V : Type 0} where
  pub clear : Lru K V → Lru K V
  clear c = record c { store = [] }
