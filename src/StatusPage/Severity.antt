-- ===== src/StatusPage/Severity.antt =====
-- What the statuses of backend/status-page/src/probes.js mean.
use pero_j.Base.{
  ℕ, ◌≤◌, ◌≡◌, ◌⊎◌, inl, inr, refl, sym, Bool, true, false, not, ◌&&◌, Option, none, some, List, [],
  ◌∷◌, ◌++◌, Outcome, returned, thrown, if◌then◌else◌, ltb, arith, All, Bool-cases,
}
use pero_j.Base.Int.{ℤ, ◌≤ℤ◌}
use pero_j.StatusPage.{
  Status, operational, degraded, major_outage, severity, worse, worst_from, worst_status,
  Thresholds, Fetched, RpcResult, latency_status, greater, unhealthy, horizon_statuses,
  rpc_statuses, stellar_status, probe_stellar, IndexerHealth, indexer_status,
}

severity_inj : (s t : Status) → severity s ≡ severity t → s ≡ t
unfolding severity
severity_inj s t h = ground arith

worse-severity :
    (s t : Status) → (severity s ≤ severity (worse s t)) × (severity t ≤ severity (worse s t))
unfolding worse
worse-severity s t = ground arith

worst_from-severity :
    (s : Status) (ss : List Status)
    → (severity s ≤ severity (worst_from s ss))
      × All (λ t. severity t ≤ severity (worst_from s ss)) ss
unfolding worst_from
worst_from-severity s [] = (omega arith, tt)
worst_from-severity s (t ∷ ss) =
    let (a, b) = worst_from-severity (worse s t) ss in
    let (c, d) = worse-severity s t in (omega (arith, a, c), (omega (arith, a, d), b))

unfoldable pub Occurs : Status → List Status → Type 0
Occurs s [] = ⊥
Occurs s (t ∷ ts) = (s ≡ t) ⊎ Occurs s ts

worst_from-Occurs :
    (s : Status) (ss : List Status) → (worst_from s ss ≡ s) ⊎ Occurs (worst_from s ss) ss
unfolding worst_from Occurs worse
worst_from-Occurs s [] = inl refl
worst_from-Occurs s (t ∷ ss) = ground (arith, worst_from-Occurs (worse s t) ss)

-- The worst status is at least as severe as every status of the list, and it is one of them, or
-- operational. So it does not depend on the order of the list.
pub worst_status-greatest :
    (ss : List Status)
    → All (λ t. severity t ≤ severity (worst_status ss)) ss
      × ((worst_status ss ≡ operational) ⊎ Occurs (worst_status ss) ss)
unfolding worst_status
worst_status-greatest ss =
    ((worst_from-severity operational ss).1, worst_from-Occurs operational ss)

-- Whether Horizon answers, and whether nothing is wrong with its answer.
unfoldable pub horizon_up : {E : Type 0} → Outcome E (Fetched (Option ℤ)) → Bool
horizon_up (thrown e) = false
horizon_up (returned h) = h.ok

unfoldable pub horizon_fine : {E : Type 0} → Thresholds → Outcome E (Fetched (Option ℤ)) → Bool
horizon_fine cfg (thrown e) = false
horizon_fine cfg (returned h) =
    h.ok
    && (not (greater h.body cfg.rpc_ledger_stale_s)
        && not (ltb cfg.latency_degraded_ms h.latency_ms))

unfoldable pub rpc_up : {E : Type 0} → Outcome E (Fetched (Option RpcResult)) → Bool
rpc_up (thrown e) = false
rpc_up (returned r) = elim r.body [ none ↦ false | some result ↦ r.ok ]

unfoldable pub rpc_fine : {E : Type 0} → Thresholds → Outcome E (Fetched (Option RpcResult)) → Bool
rpc_fine cfg (thrown e) = false
rpc_fine cfg (returned r) = elim r.body [
  | none ↦ false
  | some result ↦
      r.ok && (not (unhealthy result.status) && not (ltb cfg.latency_degraded_ms r.latency_ms))
]

-- What the two lists of statuses can be.
data Kind : List Status → Bool → Bool → Type 0 where
  is_down : Kind (major_outage ∷ []) true false
  is_fine : Kind (operational ∷ []) false true
  is_slow : Kind (degraded ∷ []) false false
  is_ill : Kind (degraded ∷ operational ∷ []) false false
  is_both : Kind (degraded ∷ degraded ∷ []) false false

stellar_status-Kind :
    (hs rs : List Status) (hd rd hf rf : Bool)
    → Kind hs hd hf
    → Kind rs rd rf
    → stellar_status (hs ++ rs) (hd && rd)
      ≡ (if hf && rf then operational else if hd && rd then major_outage else degraded)
unfolding stellar_status worst_status worst_from worse severity
stellar_status-Kind _ _ _ _ _ _ is_down is_down = refl
stellar_status-Kind _ _ _ _ _ _ is_down is_fine = refl
stellar_status-Kind _ _ _ _ _ _ is_down is_slow = refl
stellar_status-Kind _ _ _ _ _ _ is_down is_ill = refl
stellar_status-Kind _ _ _ _ _ _ is_down is_both = refl
stellar_status-Kind _ _ _ _ _ _ is_fine is_down = refl
stellar_status-Kind _ _ _ _ _ _ is_fine is_fine = refl
stellar_status-Kind _ _ _ _ _ _ is_fine is_slow = refl
stellar_status-Kind _ _ _ _ _ _ is_fine is_ill = refl
stellar_status-Kind _ _ _ _ _ _ is_fine is_both = refl
stellar_status-Kind _ _ _ _ _ _ is_slow is_down = refl
stellar_status-Kind _ _ _ _ _ _ is_slow is_fine = refl
stellar_status-Kind _ _ _ _ _ _ is_slow is_slow = refl
stellar_status-Kind _ _ _ _ _ _ is_slow is_ill = refl
stellar_status-Kind _ _ _ _ _ _ is_slow is_both = refl
stellar_status-Kind _ _ _ _ _ _ is_ill is_down = refl
stellar_status-Kind _ _ _ _ _ _ is_ill is_fine = refl
stellar_status-Kind _ _ _ _ _ _ is_ill is_slow = refl
stellar_status-Kind _ _ _ _ _ _ is_ill is_ill = refl
stellar_status-Kind _ _ _ _ _ _ is_ill is_both = refl
stellar_status-Kind _ _ _ _ _ _ is_both is_down = refl
stellar_status-Kind _ _ _ _ _ _ is_both is_fine = refl
stellar_status-Kind _ _ _ _ _ _ is_both is_slow = refl
stellar_status-Kind _ _ _ _ _ _ is_both is_ill = refl
stellar_status-Kind _ _ _ _ _ _ is_both is_both = refl

horizon-Kind :
    {E : Type 0} (cfg : Thresholds) (o : Outcome E (Fetched (Option ℤ)))
    → Kind (horizon_statuses cfg o).0 (horizon_statuses cfg o).1 (horizon_fine cfg o)
unfolding horizon_statuses horizon_fine latency_status
horizon-Kind cfg (thrown e) = is_down
horizon-Kind cfg (returned h) = elim (Bool-cases h.ok) [
  | inr d ↦ rw d is_down
  | inl u ↦ elim (Bool-cases (greater h.body cfg.rpc_ledger_stale_s)) [
    | inl s ↦ elim (Bool-cases (ltb cfg.latency_degraded_ms h.latency_ms)) [
      | inl l ↦ rw (u, s, l) is_both
      | inr l ↦ rw (u, s, l) is_ill
    ]
    | inr s ↦ elim (Bool-cases (ltb cfg.latency_degraded_ms h.latency_ms)) [
      | inl l ↦ rw (u, s, l) is_slow
      | inr l ↦ rw (u, s, l) is_fine
    ]
  ]
]

rpc_answer-Kind :
    (E : Type 0) (cfg : Thresholds) (up : Bool) (ms : ℕ) (b : Option RpcResult)
    → let o : Outcome E (Fetched (Option RpcResult)) =
        returned (record { ok = up; latency_ms = ms; body = b }) in
      Kind (rpc_statuses {E = E} cfg o).0 (rpc_statuses {E = E} cfg o).1 (rpc_fine {E = E} cfg o)
unfolding rpc_statuses rpc_fine latency_status
rpc_answer-Kind E cfg up ms none = is_down
rpc_answer-Kind E cfg false ms (some b) = is_down
rpc_answer-Kind E cfg true ms (some b) = elim (Bool-cases (unhealthy b.status)) [
  | inl s ↦ elim (Bool-cases (ltb cfg.latency_degraded_ms ms)) [
    | inl l ↦ rw (s, l) is_both
    | inr l ↦ rw (s, l) is_ill
  ]
  | inr s ↦ elim (Bool-cases (ltb cfg.latency_degraded_ms ms)) [
    | inl l ↦ rw (s, l) is_slow
    | inr l ↦ rw (s, l) is_fine
  ]
]

rpc-Kind :
    {E : Type 0} (cfg : Thresholds) (o : Outcome E (Fetched (Option RpcResult)))
    → Kind (rpc_statuses cfg o).0 (rpc_statuses cfg o).1 (rpc_fine cfg o)
unfolding rpc_statuses rpc_fine latency_status
rpc-Kind cfg (thrown e) = is_down
rpc-Kind {E = E} cfg (returned r) = rpc_answer-Kind E cfg r.ok r.latency_ms r.body

horizon-down :
    {E : Type 0} (cfg : Thresholds) (o : Outcome E (Fetched (Option ℤ)))
    → (horizon_statuses cfg o).1 ≡ not (horizon_up o)
unfolding horizon_statuses horizon_up
horizon-down cfg (thrown e) = refl
horizon-down cfg (returned h) = ground arith

rpc-down :
    {E : Type 0} (cfg : Thresholds) (o : Outcome E (Fetched (Option RpcResult)))
    → (rpc_statuses cfg o).1 ≡ not (rpc_up o)
unfolding rpc_statuses rpc_up
rpc-down cfg (thrown e) = refl
rpc-down cfg (returned r) = ground arith

-- The Stellar probe reports operational exactly if both endpoints answer in time, the ledger is
-- fresh and the RPC node does not call itself unhealthy. Otherwise it reports a major outage if
-- both endpoints are down, and degraded if one of them is up. It never reports unknown.
pub probe_stellar-status :
    {E : Type 0} (cfg : Thresholds) (horizon : Outcome E (Fetched (Option ℤ)))
    (rpc : Outcome E (Fetched (Option RpcResult)))
    → (probe_stellar cfg horizon rpc).status ≡ (
        if horizon_fine cfg horizon && rpc_fine cfg rpc
        then operational
        else if not (horizon_up horizon) && not (rpc_up rpc)
        then major_outage
        else degraded)
unfolding probe_stellar
probe_stellar-status cfg horizon rpc =
    let h = horizon_statuses cfg horizon in
    let r = rpc_statuses cfg rpc in
    rw (probe_stellar, sym (horizon-down cfg horizon), sym (rpc-down cfg rpc))
      (stellar_status-Kind h.0 r.0 h.1 r.1 (horizon_fine cfg horizon) (rpc_fine cfg rpc)
        (horizon-Kind cfg horizon) (rpc-Kind cfg rpc))

-- For an indexer that answers with a success, a larger lag never gives a better status.
pub indexer_status-lag :
    (cfg : Thresholds) (res : Fetched IndexerHealth) (lag more : ℤ)
    → res.ok ≡ true
    → lag ≤ℤ more
    → severity
        (indexer_status cfg (record res { body = record res.body { lag_seconds = some lag } }))
      ≤ severity
          (indexer_status cfg (record res { body = record res.body { lag_seconds = some more } }))
unfolding indexer_status severity greater latency_status
indexer_status-lag cfg res lag more up le = ground arith
