-- ===== src/Backfill.antt =====
-- The backfill of past ledgers: `runBackfill` of indexer/src/backfill.js. Indexing a ledger and
-- saving the checkpoint are parameters that may throw, a save also after it took effect; the state
-- keeps the ledgers whose indexing returned, latest first. The progress bar, the fixtures and the
-- network check are left out.
pub mod Coverage
mod Tests
use pero_j.Base.{
  ℕ, zero, suc, ◌+◌, ◌-◌, Bool, true, false, Option, none, some, List, [], ◌∷◌, Outcome, returned,
  thrown, if◌then◌else◌, ltb, leb,
}

pub data Problem : Type 0 where
  to_before_from index_failed save_failed : Problem

-- How a save ends. One that is `lost` has written the checkpoint and throws.
pub data Saved : Type 0 where
  kept lost unwritten : Saved

pub record State (W : Type 0) : Type 0 where
  pub world : W
  pub checkpoint : Option ℕ
  pub indexed : List ℕ

unfoldable pub max : ℕ → ℕ → ℕ
max a b = if leb a b then b else a

-- `(checkpoint ?? fromLedger - 1) + 1`, where ledgers are positive.
unfoldable pub after_checkpoint : Option ℕ → ℕ → ℕ
after_checkpoint none from_ledger = from_ledger
after_checkpoint (some c) from_ledger = c + 1

-- `toLedger ?? (await client.getLatestLedger()).sequence`
unfoldable pub last_ledger_of : Option ℕ → ℕ → ℕ
last_ledger_of none latest = latest
last_ledger_of (some t) latest = t

module _ {W : Type 0} (index : W → ℕ → W × Bool) (save : W → ℕ → W × Saved) where
  -- The loop's body: the ledger is indexed, then the checkpoint is saved.
  unfoldable pub step : ℕ → State W → Outcome Problem (Unit {0}) × State W
  step ledger s =
      let r = index s.world ledger in
      elim r.1 [
        | false ↦ (thrown index_failed, record s { world = r.0 })
        | true ↦
            let v = save r.0 ledger in
            elim v.1 [
              | unwritten ↦
                  (thrown save_failed, record s { world = v.0; indexed = ledger ∷ s.indexed })
              | lost ↦ (
                thrown save_failed,
                record { world = v.0; checkpoint = some ledger; indexed = ledger ∷ s.indexed },
              )
              | kept ↦ (
                returned tt,
                record { world = v.0; checkpoint = some ledger; indexed = ledger ∷ s.indexed },
              )
            ]
      ]

  -- So many ledgers from the given one on.
  unfoldable pub run_from : ℕ → ℕ → State W → Outcome Problem (Unit {0}) × State W
  run_from zero ledger s = (returned tt, s)
  run_from (suc n) ledger s =
      let r = step ledger s in
      elim r.0 [ thrown p ↦ (thrown p, r.1) | returned _ ↦ run_from n (ledger + 1) r.1 ]

  -- `latest` is the ledger that the client reports. The loop runs `lastLedger - firstLedger + 1`
  -- times, and not at all if that is not positive.
  unfoldable pub run_backfill : ℕ → Option ℕ → ℕ → State W → Outcome Problem (Unit {0}) × State W
  run_backfill from_ledger to_ledger latest s =
      let last_ledger = last_ledger_of to_ledger latest in
      let first_ledger = max from_ledger (after_checkpoint s.checkpoint from_ledger) in
      if ltb last_ledger from_ledger
      then (thrown to_before_from, s)
      else run_from (last_ledger + 1 - first_ledger) first_ledger s
