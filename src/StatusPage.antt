-- ===== src/StatusPage.antt =====
-- The health probes of backend/status-page/src/probes.js: the status and the latency that each
-- probe reports for what the network answers. The messages and the details are left out.
-- Latencies are whole milliseconds; a lag or a ledger's age is `none` if it is no number.
pub mod Severity
pub mod Monitor
pub mod History
mod Tests
use Prim.Native.String.{String}
use text.Mathlib.Text.{◌==◌ as str_eq}
use pero_j.Base.{
  ℕ, Bool, true, false, not, ◌&&◌, ◌||◌, Option, none, some, List, [], ◌∷◌, ◌++◌, Outcome, returned,
  thrown, if◌then◌else◌, ltb, leb,
}
use pero_j.Base.Int.{ℤ, pos, ltb_ℤ}
use pero_j.Base.Text.{is_empty}

pub data Status : Type 0 where
  operational degraded major_outage unknown : Status

unfoldable pub severity : Status → ℕ
severity operational = 0
severity unknown = 1
severity degraded = 2
severity major_outage = 3

unfoldable pub worse : Status → Status → Status
worse worst s = if ltb (severity worst) (severity s) then s else worst

-- The `reduce` from a status on.
unfoldable pub worst_from : Status → List Status → Status
worst_from worst [] = worst
worst_from worst (s ∷ ss) = worst_from (worse worst s) ss

unfoldable pub worst_status : List Status → Status
worst_status ss = worst_from operational ss

pub record Thresholds : Type 0 where
  pub latency_degraded_ms : ℕ
  pub rpc_ledger_stale_s : ℕ
  pub indexer_lag_degraded_s : ℕ
  pub indexer_lag_outage_s : ℕ

-- What `timedFetch` resolves to.
pub record Fetched (B : Type 0) : Type 0 where
  pub ok : Bool
  pub latency_ms : ℕ
  pub body : B

pub record Result : Type 0 where
  pub status : Status
  pub latency_ms : Option ℕ

unfoldable pub failure : Result
failure = record { status = major_outage; latency_ms = none }

unfoldable pub latency_status : ℕ → Thresholds → Status
latency_status latency cfg = if ltb cfg.latency_degraded_ms latency then degraded else operational

unfoldable pub greater : Option ℤ → ℕ → Bool
greater none limit = false
greater (some x) limit = ltb_ℤ (pos limit) x

-- The `result` of the RPC node's answer, with its `status`.
pub record RpcResult : Type 0 where
  pub status : Option String

unfoldable pub unhealthy : Option String → Bool
unhealthy none = false
unhealthy (some s) = not (is_empty s) && not (str_eq s "healthy")

-- What Horizon's answer adds to `statuses`, and whether it is unreachable. The body is the age of
-- the latest ledger.
unfoldable pub horizon_statuses :
    {E : Type 0} → Thresholds → Outcome E (Fetched (Option ℤ)) → List Status × Bool
horizon_statuses cfg (thrown e) = (major_outage ∷ [], true)
horizon_statuses cfg (returned h) =
    let latency = latency_status h.latency_ms cfg in
    if h.ok
    then (
      (if greater h.body cfg.rpc_ledger_stale_s then degraded ∷ latency ∷ [] else latency ∷ []),
      false,
    )
    else (major_outage ∷ [], true)

unfoldable pub rpc_statuses :
    {E : Type 0} → Thresholds → Outcome E (Fetched (Option RpcResult)) → List Status × Bool
rpc_statuses cfg (thrown e) = (major_outage ∷ [], true)
rpc_statuses cfg (returned r) =
    let latency = latency_status r.latency_ms cfg in
    elim r.body [
      | none ↦ (major_outage ∷ [], true)
      | some result ↦
          if r.ok
          then ((if unhealthy result.status then degraded ∷ latency ∷ [] else latency ∷ []), false)
          else (major_outage ∷ [], true)
    ]

unfoldable pub latency_of : {E B : Type 0} → Bool → Outcome E (Fetched B) → Option ℕ
latency_of down (thrown e) = none
latency_of down (returned f) = if down then none else some f.latency_ms

unfoldable pub max_latency : Option ℕ → Option ℕ → Option ℕ
max_latency none b = b
max_latency (some a) none = some a
max_latency (some a) (some b) = some (if leb a b then b else a)

-- A partial outage is surfaced as degraded.
unfoldable pub stellar_status : List Status → Bool → Status
stellar_status statuses both_down = elim (worst_status statuses) [
  | major_outage ↦ if both_down then major_outage else degraded
  | operational ↦ operational
  | degraded ↦ degraded
  | unknown ↦ unknown
]

unfoldable pub probe_stellar :
    {E : Type 0}
    → Thresholds
    → Outcome E (Fetched (Option ℤ))
    → Outcome E (Fetched (Option RpcResult))
    → Result
probe_stellar cfg horizon rpc =
    let h = horizon_statuses cfg horizon in
    let r = rpc_statuses cfg rpc in
    record {
      status = stellar_status (h.0 ++ r.0) (h.1 && r.1);
      latency_ms = max_latency (latency_of h.1 horizon) (latency_of r.1 rpc);
    }

-- The fields of the indexer's health report that decide; none of them if it is no object.
pub record IndexerHealth : Type 0 where
  pub db_disconnected : Bool
  pub lag_seconds : Option ℤ
  pub says_degraded : Bool

unfoldable pub indexer_status : Thresholds → Fetched IndexerHealth → Status
indexer_status cfg res =
    if res.body.db_disconnected
    then major_outage
    else if greater res.body.lag_seconds cfg.indexer_lag_outage_s
    then major_outage
    else if greater res.body.lag_seconds cfg.indexer_lag_degraded_s || res.body.says_degraded
    then degraded
    else if not res.ok
    then major_outage
    else latency_status res.latency_ms cfg

unfoldable pub probe_indexer :
    {E : Type 0} → Thresholds → Outcome E (Fetched IndexerHealth) → Result
probe_indexer cfg (thrown e) = failure
probe_indexer cfg (returned res) = record {
  status = indexer_status cfg res;
  latency_ms = some res.latency_ms;
}

pub record OracleHealth : Type 0 where
  pub says_error : Bool
  pub says_degraded : Bool
  pub active_resolvers : Option ℕ

unfoldable pub is_zero : Option ℕ → Bool
is_zero none = false
is_zero (some n) = leb n 0

-- `none` for the answer if no oracle endpoint is configured.
unfoldable pub probe_oracle :
    {E : Type 0} → Thresholds → Option (Outcome E (Fetched OracleHealth)) → Result
probe_oracle cfg none = record { status = unknown; latency_ms = none }
probe_oracle cfg (some (thrown e)) = failure
probe_oracle cfg (some (returned res)) = record {
  status =
      if not res.ok || res.body.says_error
      then major_outage
      else if res.body.says_degraded || is_zero res.body.active_resolvers
      then degraded
      else latency_status res.latency_ms cfg;
  latency_ms = some res.latency_ms;
}

unfoldable pub probe_api : {E : Type 0} → Thresholds → Outcome E (Fetched (Unit {0})) → Result
probe_api cfg (thrown e) = failure
probe_api cfg (returned res) = record {
  status = if not res.ok then major_outage else latency_status res.latency_ms cfg;
  latency_ms = some res.latency_ms;
}
