-- ===== src/StatusPage/Tests.antt =====
-- Runs of the probes and the monitor of the status page.
use pero_j.Base.{
  ℕ, ◌≤◌, ◌≡◌, refl, Bool, true, false, not, ◌&&◌, Option, none, some, List, [], ◌∷◌, Outcome,
  returned, thrown, if◌then◌else◌, length, last_of,
}
use pero_j.Base.Int.{ℤ, pos}
use pero_j.Base.Text.{String-discrete}
use pero_j.StatusPage.{
  Status, operational, degraded, major_outage, severity, worse, worst_from, worst_status,
  Thresholds, Fetched, RpcResult, latency_status, greater, unhealthy, horizon_statuses,
  rpc_statuses, stellar_status, probe_stellar, IndexerHealth, indexer_status, latency_of,
  max_latency,
}
use pero_j.StatusPage.Severity.{horizon_up, horizon_fine, rpc_up, rpc_fine, probe_stellar-status}
use pero_j.StatusPage.Monitor.{
  Probe, history_of, bounded, sample_of, record_result, record_results, begin_tick, end_tick,
  uptime, count, is_known, is_up,
}
use pero_j.StatusPage.History.{
  Happening, fires, ends, happen, after, log, sampled, history_of-after,
}

program : Unit {0}
unfolding severity worse worst_from worst_status latency_status greater unhealthy horizon_statuses
    rpc_statuses stellar_status probe_stellar indexer_status latency_of max_latency history_of
    bounded sample_of record_result record_results begin_tick end_tick happen after log sampled
    uptime count is_known is_up String-discrete
program = tt

abbrev cfg : Thresholds
cfg = record {
  latency_degraded_ms = 1500;
  rpc_ledger_stale_s = 60;
  indexer_lag_degraded_s = 60;
  indexer_lag_outage_s = 300;
}

abbrev horizon : Outcome (Unit {0}) (Fetched (Option ℤ))
horizon = returned (record { ok = true; latency_ms = 120; body = some (pos 5) })

abbrev no_rpc : Outcome (Unit {0}) (Fetched (Option RpcResult))
no_rpc = thrown tt

half_down : (probe_stellar cfg horizon no_rpc).status ≡ degraded
unfolding program
half_down = refl

abbrev indexer : Bool → ℕ → Fetched IndexerHealth
indexer ok lag = record {
  ok = ok;
  latency_ms = 20;
  body = record { db_disconnected = false; lag_seconds = some (pos lag); says_degraded = false };
}

-- An indexer that answers with an error gets a better status when it lags.
in_sync_error : indexer_status cfg (indexer false 10) ≡ major_outage
unfolding program
in_sync_error = refl

lagging_error : indexer_status cfg (indexer false 100) ≡ degraded
unfolding program
lagging_error = refl

probe_stellar-status_example : (probe_stellar cfg horizon no_rpc).status ≡ (
    if horizon_fine cfg horizon && rpc_fine cfg no_rpc
    then operational
    else if not (horizon_up horizon) && not (rpc_up no_rpc)
    then major_outage
    else degraded)
probe_stellar-status_example = probe_stellar-status cfg horizon no_rpc

abbrev api : Status → Probe
api s = record { id = "api"; status = s; latency_ms = some 12 }

abbrev rounds : List Happening
rounds =
    ends (some (3, api operational ∷ []))
    ∷ fires
    ∷ ends none
    ∷ fires
    ∷ ends (some (2, api major_outage ∷ []))
    ∷ fires
    ∷ ends (some (1, api degraded ∷ []))
    ∷ fires
    ∷ []

kept_two : length (history_of "api" (after 2 rounds)) ≡ 2
unfolding program
kept_two = refl

half_up : uptime "api" (after 2 rounds) ≡ some 5000
unfolding program
half_up = refl

history_of-after_example :
    (history_of "api" (after 2 rounds) ≡ last_of 2 (log "api" rounds))
    × (length (history_of "api" (after 2 rounds)) ≤ 2)
history_of-after_example = history_of-after 2 rounds "api"
