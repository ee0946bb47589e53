-- ===== src/StatusPage/Monitor.antt =====
-- `StatusMonitor` of backend/status-page/src/monitor.js. The log and the timer are left out.
use Prim.Native.String.{String}
use pero_j.Base.{
  ℕ, ◌+◌, ◌-◌, ◌*◌, ◌/◌, Bool, true, false, Option, none, some, List, [], ◌∷◌, ◌++◌, if◌then◌else◌,
  ltb, length, drop, ◌==◌,
}
use pero_j.Base.Dict.{Dict, lookup, insert}
use pero_j.Base.Text.{String-discrete}
use pero_j.StatusPage.{Status, operational, degraded, unknown, worst_status}

pub record Probe : Type 0 where
  pub id : String
  pub status : Status
  pub latency_ms : Option ℕ

pub record Sample : Type 0 where
  pub t : ℕ
  pub status : Status
  pub latency_ms : Option ℕ

pub record StatusMonitor : Type 0 where
  pub latest : Dict String Probe
  pub history : Dict String (List Sample)
  pub last_run_at : Option ℕ
  pub running : Bool

unfoldable pub history_of : String → StatusMonitor → List Sample
history_of id m = elim (lookup String-discrete id m.history) [ none ↦ [] | some h ↦ h ]

-- `h.splice(0, h.length - historySize)` when there are more.
unfoldable pub bounded : ℕ → List Sample → List Sample
bounded size h = if ltb size (length h) then drop (length h - size) h else h

unfoldable pub sample_of : ℕ → Probe → Sample
sample_of t r = record { t = t; status = r.status; latency_ms = r.latency_ms }

-- The loop's body for one result of the round.
unfoldable pub record_result : ℕ → ℕ → Probe → StatusMonitor → StatusMonitor
record_result size t r m = record m {
  latest = insert String-discrete r.id r m.latest;
  history =
      insert String-discrete r.id (bounded size (history_of r.id m ++ sample_of t r ∷ []))
        m.history;
}

unfoldable pub record_results : ℕ → ℕ → List Probe → StatusMonitor → StatusMonitor
record_results size t [] m = m
record_results size t (r ∷ rs) m = record_results size t rs (record_result size t r m)

-- A round starts only if none is running; it has begun when this answers true.
unfoldable pub begin_tick : StatusMonitor → Bool × StatusMonitor
begin_tick m = if m.running then (false, m) else (true, record m { running = true })

-- The probes have answered, or the round has failed: the `finally` clause ends it.
unfoldable pub end_tick : ℕ → Option (ℕ × List Probe) → StatusMonitor → StatusMonitor
end_tick size none m = record m { running = false }
end_tick size (some (t, results)) m = record (record_results size t results m) {
  last_run_at = some t;
  running = false;
}

unfoldable pub is_known : Status → Bool
is_known unknown = false
is_known _ = true

unfoldable pub is_up : Status → Bool
is_up operational = true
is_up degraded = true
is_up _ = false

unfoldable pub count : (Status → Bool) → List Sample → ℕ
count test [] = 0
count test (s ∷ h) = let rest = count test h in if test s.status then rest + 1 else rest

-- In hundredths of a percent, rounded to the nearest: `Math.round((up / known) * 10000)`.
unfoldable pub uptime : String → StatusMonitor → Option ℕ
uptime id m =
    let h = history_of id m in
    let known = count is_known h in
    if known == 0 then none else some ((2 * (count is_up h * 10000) + known) / (2 * known))

unfoldable pub statuses : Dict String Probe → List Status
statuses [] = []
statuses ((id, p) ∷ ps) = p.status ∷ statuses ps

unfoldable pub overall : StatusMonitor → Status
overall m = elim m.latest [ [] ↦ unknown | p ∷ ps ↦ worst_status (statuses m.latest) ]
