-- ===== src/StatusPage/History.antt =====
-- What the history of backend/status-page/src/monitor.js holds after any rounds of probes.
use Prim.Native.String.{String}
use mathlib.Core.Logic.{if_pos, if_neg}
use mathlib.Core.Path.{subst}
use mathlib.Core.List.{append-nil, append_assoc}
use pero_j.Base.{
  ℕ, ◌-◌, ◌≤◌, ◌≡◌, ◌≢◌, refl, sym, ap, ◌∙◌, false, Option, none, some, List, [], ◌∷◌, ◌++◌, ite,
  ltb, length, drop, arith, Bool-cases, inl, inr, last_of, last_of-append, length-drop,
}
use pero_j.Base.Dict.{lookup-insert_ne, lookup-insert_self}
use pero_j.Base.Text.{String-discrete}
use pero_j.StatusPage.Monitor.{
  Probe, Sample, StatusMonitor, history_of, bounded, sample_of, record_result, record_results,
  begin_tick, end_tick,
}

-- What happens to a monitor: the timer fires, or the round that is under way ends, with its
-- results or with a failure.
pub data Happening : Type 0 where
  fires : Happening
  ends : Option (ℕ × List Probe) → Happening

unfoldable pub happen : ℕ → Happening → StatusMonitor → StatusMonitor
happen size fires m = (begin_tick m).1
happen size (ends r) m = end_tick size r m

-- Latest first.
unfoldable pub after : ℕ → List Happening → StatusMonitor
after size [] = record { latest = []; history = []; last_run_at = none; running = false }
after size (h ∷ hs) = let m = after size hs in happen size h m

-- The samples of a component in one round, and in all rounds.
unfoldable pub sampled : String → ℕ → List Probe → List Sample
sampled id t [] = []
sampled id t (r ∷ rs) =
    let rest = sampled id t rs in ite (String-discrete r.id id) (sample_of t r ∷ rest) rest

unfoldable pub log : String → List Happening → List Sample
log id [] = []
log id (fires ∷ hs) = log id hs
log id (ends none ∷ hs) = log id hs
log id (ends (some (t, rs)) ∷ hs) = log id hs ++ sampled id t rs

bounded-last_of : (size : ℕ) (h : List Sample) → bounded size h ≡ last_of size h
unfolding bounded
bounded-last_of size h = elim (Bool-cases (ltb size (length h))) [
  | inl e ↦ rw e refl
  | inr e ↦ let q : 0 ≡ length h - size = ground (arith, e) in rw e (ap (λ n. drop n h) q)
]

history_of_self :
    (size t : ℕ) (r : Probe) (m : StatusMonitor)
    → history_of r.id (record_result size t r m)
      ≡ bounded size (history_of r.id m ++ sample_of t r ∷ [])
unfolding history_of record_result
history_of_self size t r m =
    rw
      (
        history_of,
        record_result,
        lookup-insert_self String-discrete r.id
            (bounded size (history_of r.id m ++ sample_of t r ∷ [])) m.history,
      )
      refl

history_of_other :
    (size t : ℕ) (r : Probe) (m : StatusMonitor) (id : String)
    → id ≢ r.id
    → history_of id (record_result size t r m) ≡ history_of id m
unfolding history_of record_result
history_of_other size t r m id ne =
    rw
      (
        history_of,
        record_result,
        lookup-insert_ne String-discrete id r.id
            (bounded size (history_of r.id m ++ sample_of t r ∷ [])) m.history ne,
      )
      refl

history_of-record_result :
    (size t : ℕ) (r : Probe) (m : StatusMonitor) (id : String)
    → history_of id (record_result size t r m)
      ≡ ite
          (String-discrete r.id id)
          (last_of size (history_of id m ++ sample_of t r ∷ []))
          (history_of id m)
history_of-record_result size t r m id = elim (String-discrete r.id id) [
  | yes p ↦ rw (if_pos (String-discrete r.id id) p) (
      subst
        (λ i.
          history_of i (record_result size t r m)
          ≡ last_of size (history_of i m ++ sample_of t r ∷ []))
        p
        (history_of_self size t r m
          ∙ bounded-last_of size (history_of r.id m ++ sample_of t r ∷ [])))
  | no p ↦ rw (if_neg (String-discrete r.id id) p) (history_of_other size t r m id (λ e. p (sym e)))
]

-- A history that is the end of a longer log stays so when a round's samples are added to both.
history_of-record_results :
    (size t : ℕ) (rs : List Probe) (m : StatusMonitor) (id : String) (whole : List Sample)
    → history_of id m ≡ last_of size whole
    → history_of id (record_results size t rs m) ≡ last_of size (whole ++ sampled id t rs)
unfolding record_results sampled
history_of-record_results size t [] m id whole h = h ∙ ap (last_of size) (sym (append-nil whole))
history_of-record_results size t (r ∷ rs) m id whole h = elim (String-discrete r.id id) [
  | yes p ↦
      let s = sample_of t r ∷ [] in
      let one : history_of id (record_result size t r m) ≡ last_of size (history_of id m ++ s) =
        history_of-record_result size t r m id ∙ if_pos (String-discrete r.id id) p _ _ in
      let kept =
        one ∙ ap (λ l. last_of size (l ++ s)) h ∙ last_of-append size whole (sample_of t r) in
      let all =
        history_of-record_results size t rs (record_result size t r m) id (whole ++ s) kept in
      rw (sampled, if_pos (String-discrete r.id id) p)
        (all ∙ ap (last_of size) (append_assoc whole s (sampled id t rs)))
  | no p ↦
      let kept = history_of_other size t r m id (λ e. p (sym e)) ∙ h in
      rw (sampled, if_neg (String-discrete r.id id) p)
        (history_of-record_results size t rs (record_result size t r m) id whole kept)
]

refl_nil : (size : ℕ) → ◌≡◌ {A = List Sample} [] (last_of size [])
refl_nil size = let q : 0 - size ≡ 0 = omega arith in sym (ap (λ n. drop {A = Sample} n []) q)

history_of-running :
    (m : StatusMonitor) (id : String) → history_of id (begin_tick m).1 ≡ history_of id m
unfolding history_of begin_tick
history_of-running m id = elim (Bool-cases m.running) [
  | inl e ↦ rw (begin_tick, e) refl
  | inr e ↦ rw (begin_tick, e) refl
]

history_of-log :
    (size : ℕ) (hs : List Happening) (id : String)
    → history_of id (after size hs) ≡ last_of size (log id hs)
unfolding after log happen end_tick history_of
history_of-log size [] id = refl_nil size
history_of-log size (fires ∷ hs) id =
    history_of-running (after size hs) id ∙ history_of-log size hs id
history_of-log size (ends none ∷ hs) id = history_of-log size hs id
history_of-log size (ends (some (t, rs)) ∷ hs) id =
    history_of-record_results size t rs (after size hs) id (log id hs) (history_of-log size hs id)

-- After any firings of the timer and ends of rounds, a component's history is the last
-- `historySize` of the samples of all rounds that ended with results, in their order. So it has
-- at most that many.
pub history_of-after :
    (size : ℕ) (hs : List Happening) (id : String)
    → (history_of id (after size hs) ≡ last_of size (log id hs))
      × (length (history_of id (after size hs)) ≤ size)
history_of-after size hs id =
    let e = history_of-log size hs id in
    (e, rw e (omega (arith, length-drop (length (log id hs) - size) (log id hs))))
