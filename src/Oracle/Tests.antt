-- ===== src/Oracle/Tests.antt =====
-- Runs of the oracle daemon's submissions.
use Prim.Native.String.{String}
use native.Mathlib.Decide.{ℕ_discrete}
use text.Mathlib.Text.{◌==◌ as str_eq}
use pero_j.Base.{
  ℕ, ◌+◌, ◌≤◌, ◌≡◌, ◌≢◌, ◌↔◌, refl, Bool, true, false, Option, none, some, List, [], ◌∷◌, length,
  Outcome, returned, thrown, if◌then◌else◌,
}
use pero_j.Oracle.{
  Status, opened, submitting, Phase, claimed, ready, sent, failing, determined, submit_done,
  mark_failed, submit_lost, release_done, Move, move, claim, determine_outcome, ask_all, together,
  agreed, set_of, has_bool, same_bool, go_to, finish, Trouble,
}
use pero_j.Oracle.Unanimous.{Answer, determine_outcome-unanimous}
use pero_j.Oracle.Exclusive.{reachable-alone}
use pero_j.Oracle.Calls.{
  System, Reachable, phases, on_chain, times_unmarked, write, push_call, push_chain, push_unmarked,
}

program : Unit {0}
unfolding move claim determine_outcome ask_all together agreed set_of has_bool same_bool phases
    on_chain times_unmarked write push_call push_chain push_unmarked ℕ_discrete
program = tt

abbrev categories : String → Option (List String)
categories c = if str_eq c "crypto" then some ("binance" ∷ "coinmarketcap" ∷ []) else none

abbrev says_yes : String → ℕ → Outcome (Unit {0}) Bool
says_yes name price = returned true

abbrev binance_only : String → ℕ → Outcome (Unit {0}) Bool
binance_only name price = returned (str_eq name "binance")

both_agree : determine_outcome categories says_yes "crypto" 5 ≡ returned true
unfolding program
both_agree = refl

they_differ :
    determine_outcome categories binance_only "crypto" 5
    ≡ thrown (Trouble.disagree (true ∷ false ∷ []))
unfolding program
they_differ = refl

determine_outcome-unanimous_example :
    (determine_outcome categories says_yes "crypto" 5 ≡ returned true)
    ↔ ((ns : List String) × (categories "crypto" ≡ some ns) × (ns ≢ []) × Answer says_yes 5 true ns)
determine_outcome-unanimous_example =
    determine_outcome-unanimous says_yes 5 categories "crypto" true

abbrev all_open : ℕ → Status
all_open k = opened

abbrev taken : ℕ → Status
unfolding write
taken = write ℕ_discrete 7 (some submitting) all_open

abbrev released : ℕ → Status
unfolding write
released = write ℕ_discrete 7 (some opened) taken

abbrev retaken : ℕ → Status
unfolding write
retaken = write ℕ_discrete 7 (some submitting) released

abbrev sends : Move
sends = record (go_to sent) { on_chain = some true }

abbrev once : List (ℕ × Bool)
once = (7, true) ∷ []

abbrev at : (ℕ → Status) → List (ℕ × Phase) → List (ℕ × Bool) → List ℕ → System ℕ
at st calls chain unmarked = record {
  status = st;
  calls = calls;
  chain = chain;
  unmarked = unmarked;
}

first_send : Reachable ℕ_discrete all_open (at taken ((7, sent) ∷ []) once [])
unfolding program
first_send = Reachable.moves 7 (ready true) submit_done sends taken [] [] [] [] refl (
    Reachable.moves 7 claimed (determined true) (go_to (ready true)) taken [] [] [] [] refl
      (Reachable.claims 7 (at all_open [] [] []) Reachable.started refl))

released_again : Reachable ℕ_discrete all_open (at released [] once (7 ∷ []))
unfolding program
released_again =
    Reachable.moves 7 failing release_done (record finish { status = some opened }) taken [] [] once
      (7 ∷ []) refl
      (Reachable.moves 7 sent mark_failed (go_to failing) taken [] [] once [] refl first_send)

-- The mark of the first submission throws, the market is released, and a second call claims it
-- and submits again.
abbrev twice : System ℕ
twice = at retaken ((7, sent) ∷ []) ((7, true) ∷ once) (7 ∷ [])

twice-Reachable : Reachable ℕ_discrete all_open twice
unfolding program
twice-Reachable =
    Reachable.moves 7 (ready true) submit_done sends retaken [] [] once (7 ∷ []) refl (
      Reachable.moves 7 claimed (determined true) (go_to (ready true)) retaken [] [] once (7 ∷ [])
        refl (Reachable.claims 7 (at released [] once (7 ∷ [])) released_again refl))

-- The chain took the outcome, but the call of it threw: the market is submitted again.
lost_submission : Reachable ℕ_discrete all_open (at taken ((7, failing) ∷ []) once (7 ∷ []))
unfolding program
lost_submission =
    Reachable.moves 7 (ready true) submit_lost (record (go_to failing) { on_chain = some true })
      taken [] [] [] [] refl
      (Reachable.moves 7 claimed (determined true) (go_to (ready true)) taken [] [] [] [] refl
        (Reachable.claims 7 (at all_open [] [] []) Reachable.started refl))

reachable-alone_example :
    (length (phases ℕ_discrete 7 twice.calls) ≤ 1)
    × (phases ℕ_discrete 7 twice.calls ≢ [] → twice.status 7 ≢ opened)
    × (on_chain ℕ_discrete 7 twice.chain ≤ times_unmarked ℕ_discrete 7 twice.unmarked + 1)
reachable-alone_example = reachable-alone ℕ_discrete all_open twice twice-Reachable 7
