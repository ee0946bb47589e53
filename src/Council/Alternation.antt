-- ===== src/Council/Alternation.antt =====
-- No alert is sent twice: the runs of indexer/src/monitors/councilInactivity.js.
use pero_j.Base.{
  Outcome-cases, ◌/◌, ℕ, ◌+◌, ◌≡◌, refl, sym, ap, ◌∙◌, Bool, true, false, List, [], ◌∷◌, ◌++◌,
  if◌then◌else◌, arith, inl, inr, Bool-cases,
}
use pero_j.Base.Dict.{Dict}
use pero_j.Council.{
  Dispute, Config, Alert, due_milestones, Key, same_key, Page, triggered, resolved, State, sent,
  forget, active_disputes, is_over, page, resolve_alerts, send_alerts, send_for,
  check_council_inactivity,
}

-- Whether the last page about an alert triggered it.
unfoldable pub open_in : Key → List Page → Bool
open_in k [] = false
open_in k (triggered j ∷ ps) = let rest = open_in k ps in if same_key j k then true else rest
open_in k (resolved j ∷ ps) = let rest = open_in k ps in if same_key j k then false else rest

-- No alert is triggered while it is open.
unfoldable pub Alternates : List Page → Type 0
Alternates [] = Unit
Alternates (triggered k ∷ ps) = (open_in k ps ≡ false) × Alternates ps
Alternates (resolved k ∷ ps) = Alternates ps

unfoldable pub InStep : {W : Type 0} → State W → Type 0
InStep s = ((k : Key) → sent k s.sent_alerts ≡ open_in k s.log) × Alternates s.log

sent-append :
    (k j : Key) (ks : List Key) → sent k (ks ++ j ∷ []) ≡ (if same_key j k then true else sent k ks)
unfolding sent
sent-append k j [] = refl
sent-append k j (i ∷ ks) = ground (arith, sent-append k j ks)

sent-forget :
    (k j : Key) (ks : List Key) → sent k (forget j ks) ≡ (if same_key j k then false else sent k ks)
unfolding sent forget same_key
sent-forget k j [] = ground arith
sent-forget k j (i ∷ ks) = ground (arith, sent-forget k j ks)

module _ {W : Type 0} (accepts : W → Page → W × Bool) where
  page_accepted :
      (p : Page) (s : State W)
      → (page accepts p s).0 ≡ true
      → ((page accepts p s).1.sent_alerts ≡ s.sent_alerts) × ((page accepts p s).1.log ≡ p ∷ s.log)
  unfolding page
  page_accepted p s h = ground arith

  page_refused :
      (p : Page) (s : State W)
      → (page accepts p s).0 ≡ false
      → ((page accepts p s).1.sent_alerts ≡ s.sent_alerts) × ((page accepts p s).1.log ≡ s.log)
  unfolding page
  page_refused p s h = ground arith

  refused-InStep :
      (p : Page) (s : State W)
      → (page accepts p s).0 ≡ false
      → InStep s
      → InStep (page accepts p s).1
  unfolding InStep
  refused-InStep p s h i = let (a, b) = page_refused p s h in rw (a, b) i

  resolved-InStep :
      (k : Key) (s : State W)
      → (page accepts (resolved k) s).0 ≡ true
      → InStep s
      → let v = (page accepts (resolved k) s).1 in
        InStep (record v { sent_alerts = forget k v.sent_alerts })
  unfolding InStep Alternates open_in
  resolved-InStep k s h (i, a) =
      let (p, q) = page_accepted (resolved k) s h in
      rw (p, q)
        (
          (λ j. sent-forget j k s.sent_alerts ∙ ap (λ b. if same_key k j then false else b) (i j)),
          a,
        )

  triggered-InStep :
      (k : Key) (s : State W)
      → (page accepts (triggered k) s).0 ≡ true
      → sent k s.sent_alerts ≡ false
      → InStep s
      → let v = (page accepts (triggered k) s).1 in
        InStep (record v { sent_alerts = v.sent_alerts ++ k ∷ [] })
  unfolding InStep Alternates open_in
  triggered-InStep k s h new (i, a) =
      let (p, q) = page_accepted (triggered k) s h in
      rw (p, q)
        (
          (λ j. sent-append j k s.sent_alerts ∙ ap (λ b. if same_key k j then true else b) (i j)),
          (sym (i k) ∙ new, a),
        )

  resolve_alerts-InStep :
      (active : Dict ℕ Bool) (ks : List Key) (s : State W)
      → InStep s
      → InStep (resolve_alerts accepts active ks s).1
  unfolding resolve_alerts
  resolve_alerts-InStep active [] s i = i
  resolve_alerts-InStep active (k ∷ ks) s i = elim (Bool-cases (is_over k.0 active)) [
    | inr e ↦ rw (resolve_alerts, e) (resolve_alerts-InStep active ks s i)
    | inl e ↦ elim (Bool-cases (page accepts (resolved k) s).0) [
      | inr f ↦ rw (resolve_alerts, e, f) (refused-InStep (resolved k) s f i)
      | inl f ↦
          rw (resolve_alerts, e, f) (resolve_alerts-InStep active ks _ (resolved-InStep k s f i))
    ]
  ]

  send_alerts-InStep :
      (alerts : List Alert) (n : ℕ) (s : State W)
      → InStep s
      → InStep (send_alerts accepts alerts n s).1
  unfolding send_alerts
  send_alerts-InStep [] n s i = i
  send_alerts-InStep (a ∷ rest) n s i =
      let k : Key = (a.dispute_id, a.hours) in
      elim (Bool-cases (sent k s.sent_alerts)) [
        | inl e ↦ rw (send_alerts, e) (send_alerts-InStep rest n s i)
        | inr e ↦ elim (Bool-cases (page accepts (triggered k) s).0) [
          | inr f ↦ rw (send_alerts, e, f) (refused-InStep (triggered k) s f i)
          | inl f ↦
              rw (send_alerts, e, f)
                (send_alerts-InStep rest (n + 1) _ (triggered-InStep k s f e i))
        ]
      ]

  send_for-InStep :
      (cfg : Config) (now : ℕ) (ds : List Dispute) (n : ℕ) (s : State W)
      → InStep s
      → InStep (send_for accepts cfg now ds n s).1
  unfolding send_for
  send_for-InStep cfg now [] n s i = i
  send_for-InStep cfg now (d ∷ ds) n s i = elim (Outcome-cases (due_milestones d cfg now)) [
    | inl (p, e) ↦ rw (send_for, e) i
    | inr (alerts, e) ↦
        let kept = send_alerts-InStep alerts n s i in
        elim (Outcome-cases (send_alerts accepts alerts n s).0) [
          | inl (p, f) ↦ rw (send_for, e, f) kept
          | inr (m, f) ↦ rw (send_for, e, f) (send_for-InStep cfg now ds m _ kept)
        ]
  ]

  -- The set of sent alerts stays in step with the pages that PagerDuty answered with success, whether
  -- a check returns or throws: an alert is in the set exactly if the last of these pages about it
  -- triggered it, and none of them triggers an alert again before another one resolved it. Pages
  -- whose answer was lost are not among them.
  pub check_council_inactivity-InStep :
      (disputes : List Dispute) (cfg : Config) (now : ℕ) (s : State W)
      → InStep s
      → InStep (check_council_inactivity accepts disputes cfg now s).1
  unfolding check_council_inactivity
  check_council_inactivity-InStep disputes cfg now s i =
      elim (Outcome-cases (active_disputes cfg disputes [])) [
        | inl (p, e) ↦ rw (check_council_inactivity, e) i
        | inr (active, e) ↦
            let kept = resolve_alerts-InStep active s.sent_alerts s i in
            elim (Outcome-cases (resolve_alerts accepts active s.sent_alerts s).0) [
              | inl (p, f) ↦ rw (check_council_inactivity, e, f) kept
              | inr (u, f) ↦
                  rw (check_council_inactivity, e, f)
                    (send_for-InStep cfg (now / 1000) disputes 0 _ kept)
            ]
      ]
