-- ===== src/Council/Tests.antt =====
-- Runs of the council inactivity monitor of indexer/src/monitors/councilInactivity.js.
use Prim.Native.String.{String}
use native.Mathlib.Decide.{ℕ_discrete}
use pero_j.Base.{
  ℕ, ◌*◌, ◌≡◌, refl, Bool, true, false, Option, some, List, [], ◌∷◌, returned, if◌then◌else◌, arith,
}
use pero_j.Base.Int.{◌-ℤ◌}
use pero_j.Council.{
  Dispute, Config, field, member_of, members, distinct_council, get_voting_members, passed,
  sound_deadline, alerts_for, due_milestones, same_key, Page, triggered, resolved, State, sent,
  forget, active_disputes, is_over, page, resolve_alerts, send_alerts, send_for,
  check_council_inactivity,
}
use pero_j.Council.Alternation.{InStep, Alternates, open_in, check_council_inactivity-InStep}

program : Unit {0}
unfolding field member_of members distinct_council get_voting_members passed sound_deadline
    alerts_for due_milestones same_key sent forget active_disputes is_over page resolve_alerts
    send_alerts send_for check_council_inactivity ℕ_discrete ◌-ℤ◌
program = tt

abbrev cfg : Config
cfg = record { roster = "ann" ∷ "bob" ∷ "cy" ∷ []; quorum = 2 }

abbrev dispute : List (Option String) → Dispute
dispute votes = record {
  id = some 4;
  submission_id = some 9;
  deadline_unix_seconds = some (100 * 60 * 60);
  votes = some votes;
}

abbrev accepts : Unit {0} → Page → Unit {0} × Bool
accepts w p = (w, true)

abbrev start : State (Unit {0})
start = record { world = tt; sent_alerts = []; log = [] }

-- The vote opened at hour 28; at hour 77 two milestones have passed. Only one member voted.
abbrev hour_77 : ℕ
hour_77 = 77 * 60 * 60 * 1000

two_alerts :
    (check_council_inactivity accepts
      (dispute (some "ann" ∷ some "ann" ∷ some "eve" ∷ []) ∷ [])
      cfg
      hour_77
      start).0
    ≡ returned 2
unfolding program
two_alerts = refl

abbrev warned : State (Unit {0})
warned = record {
  world = tt;
  sent_alerts = (4, 24) ∷ (4, 48) ∷ [];
  log = triggered (4, 48) ∷ triggered (4, 24) ∷ [];
}

warned_state :
    (check_council_inactivity accepts
      (dispute (some "ann" ∷ some "ann" ∷ some "eve" ∷ []) ∷ [])
      cfg
      hour_77
      start).1
    ≡ warned
unfolding program
warned_state = refl

not_again :
    (check_council_inactivity accepts (dispute (some "ann" ∷ []) ∷ []) cfg hour_77 warned).0
    ≡ returned 0
unfolding program
not_again = refl

resolved_by_quorum :
    (check_council_inactivity accepts
      (dispute (some "ann" ∷ some "cy" ∷ []) ∷ [])
      cfg
      hour_77
      warned).1.log
    ≡ resolved (4, 48) ∷ resolved (4, 24) ∷ triggered (4, 48) ∷ triggered (4, 24) ∷ []
unfolding program
resolved_by_quorum = refl

either :
    (a b : Bool)
    → (if a then true else if b then true else false)
      ≡ (if b then true else if a then true else false)
either a b = ground arith

warned-InStep : InStep warned
unfolding program InStep Alternates open_in
warned-InStep = (λ k. either (same_key (4, 24) k) (same_key (4, 48) k), (refl, (refl, tt)))

check_council_inactivity-InStep_example :
    InStep
      (check_council_inactivity accepts
        (dispute (some "ann" ∷ some "cy" ∷ []) ∷ [])
        cfg
        hour_77
        warned).1
check_council_inactivity-InStep_example =
    check_council_inactivity-InStep accepts (dispute (some "ann" ∷ some "cy" ∷ []) ∷ []) cfg hour_77
      warned warned-InStep
