-- ===== src/Cache/Update.antt =====
-- Eager eviction in indexer/src/cache.js: `isExplorerUpdateEvent`, `evictContractMeta` and
-- `handleIndexerEvent`. A field that is absent is the empty text: both are falsy, and both differ
-- from "update" and from any contract id. `env` is EXPLORER_CONTRACT_ID.
use Prim.Native.String.{String}
use text.Mathlib.Text.{◌==◌ as str_eq}
use text.Mathlib.TextEquality.{eq_iff}
use pero_j.Base.{◌≡◌, ◌≢◌, Bool, true, false, ◌&&◌, not, Option, none, some, if◌then◌else◌, arith}
use pero_j.Base.Text.{String-discrete, is_empty, or_else}
use pero_j.Base.Dict.{lookup, lookup-erase_ne}
use pero_j.Cache.{Lru, evict}

pub record Event : Type 0 where
  pub topic : String
  pub event : String
  pub name : String
  pub contract_id : String
  pub contract : String
  pub source : String
  pub explorer_contract_id : String

abbrev pub event_topic : Event → String
event_topic ev = or_else (or_else ev.topic ev.event) ev.name

abbrev pub event_contract : Event → String
event_contract ev = or_else (or_else ev.contract_id ev.contract) ev.source

abbrev pub explorer : Event → String → String
explorer ev env = or_else ev.explorer_contract_id env

-- `none` is a value that is no object.
pub is_explorer_update_event : Option Event → String → Bool
is_explorer_update_event none env = false
is_explorer_update_event (some ev) env =
    if not (str_eq (event_topic ev) "update")
    then false
    else if is_empty (event_contract ev)
    then false
    else if not (is_empty (explorer ev env)) && not (str_eq (event_contract ev) (explorer ev env))
    then false
    else true

module _ {V : Type 0} where
  pub evict_contract_meta : String → Lru String V → Bool × Lru String V
  evict_contract_meta id c = if is_empty id then (false, c) else evict String-discrete id c

  pub handle_indexer_event : Option Event → String → Lru String V → Bool × Lru String V
  handle_indexer_event none env c = (false, c)
  handle_indexer_event (some ev) env c =
      if not (is_explorer_update_event (some ev) env)
      then (false, c)
      else evict_contract_meta (event_contract ev) c

  -- With an explorer contract configured, an event can only remove the entry of that very
  -- contract: the entries of all other contracts, the updated one among them, stay.
  pub handle_indexer_event-others :
      (ev : Event) (env id : String) (c : Lru String V)
      → is_empty (explorer ev env) ≡ false
      → id ≢ explorer ev env
      → lookup String-discrete id (handle_indexer_event (some ev) env c).1.store
        ≡ lookup String-discrete id c.store
  unfolding handle_indexer_event is_explorer_update_event evict_contract_meta evict
  handle_indexer_event-others ev env id c configured other = ground (
    arith,
    eq_iff (event_contract ev) (explorer ev env),
    lookup-erase_ne String-discrete id (event_contract ev) c.store,
  )
