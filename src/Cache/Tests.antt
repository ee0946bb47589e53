-- ===== src/Cache/Tests.antt =====
-- Runs of the caches of indexer/src/cache.js, abiCache.js and indexer.js.
use Prim.Native.String.{String}
use native.Mathlib.Decide.{ℕ_discrete}
use pero_j.Base.{
  Option, Outcome, ℕ, ◌+◌, ◌≤◌, ◌<◌, ◌≡◌, refl, none, some, List, [], ◌∷◌, returned, thrown, length,
}
use pero_j.Cache.{Lru, get, set, evict, clear, trim}
use pero_j.Cache.Trace.{Op, get_at, set_at, step, after, last_write, get-last_write}
use pero_j.Cache.Negative.{AbiCache, abi_get, abi_set, in_hand, get_abi}
use pero_j.Cache.Update.{Event}

program : Unit {0}
unfolding get set evict clear trim step after last_write abi_get abi_set in_hand get_abi ℕ_discrete
program = tt

abbrev empty : Lru ℕ ℕ
empty = record { ttl_ms = 100; max_entries = 2; store = [] }

-- Latest first: key 1 is read at time 40, so that key 2 is the one that key 3 pushes out.
abbrev ops : List (Op ℕ ℕ)
ops = set_at 3 30 50 ∷ get_at 1 40 ∷ set_at 2 20 10 ∷ set_at 1 10 0 ∷ []

after-ops :
    (after ℕ_discrete ops empty).store
    ≡ (1, record { value = 10; cached_at = 0 }) ∷ (3, record { value = 30; cached_at = 50 }) ∷ []
unfolding program
after-ops = refl

expired : (get ℕ_discrete 1 100 (after ℕ_discrete ops empty)).0 ≡ none
unfolding program
expired = refl

get-last_write_example :
    (length (after ℕ_discrete ops empty).store ≤ 2)
    × ((v : ℕ)
        → (get ℕ_discrete 1 99 (after ℕ_discrete ops empty)).0 ≡ some v
        → (t : ℕ) × (last_write ℕ_discrete ops 1 ≡ some (v, t)) × (99 < t + 100))
get-last_write_example = get-last_write ℕ_discrete ops empty 1 99 refl

abbrev full : Lru ℕ ℕ
full = record empty {
  store =
      (2, record { value = 20; cached_at = 10 }) ∷ (1, record { value = 10; cached_at = 0 }) ∷ [];
}

abbrev abis : AbiCache ℕ ℕ
abis = record { ttl_ms = 60000; not_registered_ttl_ms = 2000; cache = [] }

abbrev not_registered : Outcome ℕ (Option ℕ)
not_registered = returned none

abbrev eight : Outcome ℕ (Option ℕ)
eight = returned (some 8)

abbrev failed : Outcome ℕ (Option ℕ)
failed = thrown 4

abbrev update_event : Event
update_event = record {
  topic = "update";
  event = "";
  name = "";
  contract_id = "CEXP";
  contract = "";
  source = "";
  explorer_contract_id = "";
}

abbrev two : Lru String ℕ
two = record {
  ttl_ms = 100;
  max_entries = 2;
  store =
      ("CEXP", record { value = 1; cached_at = 0 })
      ∷ ("CDEX", record { value = 2; cached_at = 0 })
      ∷ [];
}
