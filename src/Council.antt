-- ===== src/Council.antt =====
-- The council inactivity monitor: indexer/src/monitors/councilInactivity.js. A field that fails its
-- check is `none`. Votes and the roster are lists of members. An alert's key is the pair of the
-- dispute's id and the hours; ids are natural numbers. PagerDuty is a parameter that answers
-- a call with success or makes it throw; the state keeps the calls answered with success, latest
-- first.
pub mod Alternation
mod Tests
use Prim.Native.String.{String}
use text.Mathlib.Text.{◌==◌ as str_eq}
use pero_j.Base.{
  ℕ, ◌+◌, ◌*◌, ◌/◌, Bool, true, false, not, ◌&&◌, ◌||◌, Option, none, some, List, [], ◌∷◌, ◌++◌,
  Outcome, returned, thrown, ◌>>=◌, if◌then◌else◌, ltb, leb, ◌==◌, length,
}
use native.Mathlib.Decide.{ℕ_discrete}
use pero_j.Base.Dict.{Dict, lookup, insert}
use pero_j.Base.Int.{ℤ, pos, ◌-ℤ◌, leb_ℤ}

abbrev pub dispute_voting_period_seconds : ℕ
dispute_voting_period_seconds = 72 * 60 * 60

abbrev pub escalation_hours : List ℕ
escalation_hours = 24 ∷ 48 ∷ 60 ∷ []

pub data Problem : Type 0 where
  invalid_id invalid_deadline invalid_votes invalid_submission refused : Problem

pub record Dispute : Type 0 where
  pub id : Option ℕ
  pub submission_id : Option ℕ
  pub deadline_unix_seconds : Option ℕ
  pub votes : Option (List (Option String))

pub record Config : Type 0 where
  pub roster : List String
  pub quorum : ℕ

unfoldable pub field : {A : Type 0} → Option A → Problem → Outcome Problem A
field none p = thrown p
field (some a) p = returned a

unfoldable pub member_of : String → List String → Bool
member_of s [] = false
member_of s (x ∷ xs) = let rest = member_of s xs in if str_eq x s then true else rest

-- Every vote must name a member.
unfoldable pub members : List (Option String) → Outcome Problem (List String)
members [] = returned []
members (none ∷ vs) = thrown invalid_votes
members (some s ∷ vs) = members vs >>= λ ms. returned (s ∷ ms)

-- `new Set` of the members that sit on the council.
unfoldable pub distinct_council : List String → List String → List String → List String
distinct_council roster seen [] = seen
distinct_council roster seen (s ∷ ms) =
    if member_of s roster && not (member_of s seen)
    then distinct_council roster (seen ++ s ∷ []) ms
    else distinct_council roster seen ms

unfoldable pub get_voting_members : Dispute → Config → Outcome Problem (List String)
get_voting_members d cfg = do
  votes ← field d.votes invalid_votes
  ms ← members votes
  returned (distinct_council cfg.roster [] ms)

pub record Alert : Type 0 where
  pub dispute_id : ℕ
  pub submission_id : ℕ
  pub hours : ℕ
  pub votes_cast : ℕ
  pub deadline : ℕ

-- The hours that have passed since the vote opened, of those that escalate.
unfoldable pub passed : ℤ → List ℕ → List ℕ
passed elapsed [] = []
passed elapsed (h ∷ hs) =
    let rest = passed elapsed hs in if leb_ℤ (pos (h * 60 * 60)) elapsed then h ∷ rest else rest

-- A deadline in milliseconds that a Date can hold; it is then a safe integer in seconds.
abbrev pub max_deadline : ℕ
max_deadline = 8640000000000

unfoldable pub alerts_for : ℕ → Option ℕ → ℕ → ℕ → List ℕ → Outcome Problem (List Alert)
alerts_for id submission votes deadline [] = returned []
alerts_for id submission votes deadline (h ∷ hs) =
    let rest = alerts_for id submission votes deadline hs in
    do
      s ← field submission invalid_submission
      more ← rest
      returned (
          record {
            dispute_id = id;
            submission_id = s;
            hours = h;
            votes_cast = votes;
            deadline = deadline;
          }
          ∷ more)

unfoldable pub sound_deadline : Option ℕ → Outcome Problem ℕ
sound_deadline none = thrown invalid_deadline
sound_deadline (some d) = if ltb max_deadline d then thrown invalid_deadline else returned d

unfoldable pub due_milestones : Dispute → Config → ℕ → Outcome Problem (List Alert)
due_milestones d cfg now_seconds = do
  id ← field d.id invalid_id
  deadline ← sound_deadline d.deadline_unix_seconds
  voting ← get_voting_members d cfg
  if leb cfg.quorum (length voting)
      then returned []
      else alerts_for id d.submission_id (length voting) deadline (
          passed (pos now_seconds -ℤ (pos deadline -ℤ pos dispute_voting_period_seconds))
            escalation_hours)

abbrev pub Key : Type 0
Key = ℕ × ℕ

unfoldable pub same_key : Key → Key → Bool
same_key a b = a.0 == b.0 && a.1 == b.1

pub data Page : Type 0 where
  triggered : Key → Page
  resolved : Key → Page

pub record State (W : Type 0) : Type 0 where
  pub world : W
  pub sent_alerts : List Key
  pub log : List Page

unfoldable pub sent : Key → List Key → Bool
sent k [] = false
sent k (j ∷ js) = let rest = sent k js in if same_key j k then true else rest

unfoldable pub forget : Key → List Key → List Key
forget k [] = []
forget k (j ∷ js) = let rest = forget k js in if same_key j k then rest else j ∷ rest

-- `activeDisputes`: whether each dispute has reached its quorum.
unfoldable pub active_disputes : Config → List Dispute → Dict ℕ Bool → Outcome Problem (Dict ℕ Bool)
active_disputes cfg [] m = returned m
active_disputes cfg (d ∷ ds) m = field d.id invalid_id >>= λ id.
    get_voting_members d cfg >>= λ voting.
    active_disputes cfg ds (insert ℕ_discrete id (leb cfg.quorum (length voting)) m)

unfoldable pub is_over : ℕ → Dict ℕ Bool → Bool
is_over id m = elim (lookup ℕ_discrete id m) [ none ↦ true | some quorum ↦ quorum ]

module _ {W : Type 0} (accepts : W → Page → W × Bool) where
  -- One call of PagerDuty, which throws if it is not accepted.
  unfoldable pub page : Page → State W → Bool × State W
  page p s =
      let r = accepts s.world p in
      if r.1
      then (true, record s { world = r.0; log = p ∷ s.log })
      else (false, record s { world = r.0 })

  -- The first loop: over the keys that were sent when it began.
  unfoldable pub resolve_alerts :
      Dict ℕ Bool → List Key → State W → Outcome Problem (Unit {0}) × State W
  resolve_alerts active [] s = (returned tt, s)
  resolve_alerts active (k ∷ ks) s =
      let r = page (resolved k) s in
      elim (is_over k.0 active) [
        | false ↦ resolve_alerts active ks s
        | true ↦ elim r.0 [
          | false ↦ (thrown refused, r.1)
          | true ↦ resolve_alerts active ks (record r.1 { sent_alerts = forget k r.1.sent_alerts })
        ]
      ]

  -- The inner loop over the alerts of one dispute, with the count of alerts sent.
  unfoldable pub send_alerts : List Alert → ℕ → State W → Outcome Problem ℕ × State W
  send_alerts [] n s = (returned n, s)
  send_alerts (a ∷ rest) n s =
      let k : Key = (a.dispute_id, a.hours) in
      let r = page (triggered k) s in
      elim (sent k s.sent_alerts) [
        | true ↦ send_alerts rest n s
        | false ↦ elim r.0 [
          | false ↦ (thrown refused, r.1)
          | true ↦ send_alerts rest (n + 1) (record r.1 { sent_alerts = r.1.sent_alerts ++ k ∷ [] })
        ]
      ]

  unfoldable pub send_for : Config → ℕ → List Dispute → ℕ → State W → Outcome Problem ℕ × State W
  send_for cfg now [] n s = (returned n, s)
  send_for cfg now (d ∷ ds) n s = elim (due_milestones d cfg now) [
    | thrown p ↦ (thrown p, s)
    | returned alerts ↦
        let r = send_alerts alerts n s in
        elim r.0 [ thrown p ↦ (thrown p, r.1) | returned m ↦ send_for cfg now ds m r.1 ]
  ]

  unfoldable pub check_council_inactivity :
      List Dispute → Config → ℕ → State W → Outcome Problem ℕ × State W
  check_council_inactivity disputes cfg now s = elim (active_disputes cfg disputes []) [
    | thrown p ↦ (thrown p, s)
    | returned active ↦
        let r = resolve_alerts active s.sent_alerts s in
        elim r.0 [
          | thrown p ↦ (thrown p, r.1)
          | returned _ ↦ send_for cfg (now / 1000) disputes 0 r.1
        ]
  ]
