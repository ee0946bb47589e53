-- ===== src/Disputes.antt =====
-- The countdown and the votes of the active disputes: formatCountdown and formatOracleDisputes of
-- indexer/src/oracleDisputes.js. The seconds that remain are not negative. A field that fails its
-- check is `none`.
pub mod Countdown
pub mod Votes
mod Tests
use Prim.Native.String.{String}
use text.Mathlib.Text.{◌==◌ as str_eq}
use pero_j.Base.Codes.{Text, codes}
use pero_j.Base.Decimal.{print_ℕ}
use pero_j.Base.{
  ℕ, zero, suc, ◌+◌, ◌-◌, ◌*◌, ◌/◌, ◌%◌, Bool, true, false, Option, none, some, List, [], ◌∷◌, ◌++◌,
  Outcome, returned, thrown, ◌>>=◌, if◌then◌else◌, ltb, ◌==◌, length,
}

-- A unit with its name and its length in seconds.
pub record TimeUnit : Type 0 where
  pub name : String
  pub size : ℕ

pub record Part : Type 0 where
  pub name : String
  pub count : ℕ

abbrev pub units : List TimeUnit
units =
    record { name = "day"; size = 86400 }
    ∷ record { name = "hour"; size = 3600 }
    ∷ record { name = "minute"; size = 60 }
    ∷ record { name = "second"; size = 1 }
    ∷ []

-- The loop over the units, which breaks once there are two parts.
unfoldable pub countdown_parts : List TimeUnit → ℕ → List Part → List Part
countdown_parts [] remaining parts = parts
countdown_parts (u ∷ us) remaining parts =
    let count = remaining / u.size in
    let more = parts ++ record { name = u.name; count = count } ∷ [] in
    let with_part = countdown_parts us (remaining % u.size) more in
    let without = countdown_parts us remaining parts in
    if ltb 0 count
    then (if length more == 2 then more else with_part)
    else (if length parts == 2 then parts else without)

-- `${count} ${unit}${count === 1 ? "" : "s"}`
unfoldable pub part_text : Part → Text
part_text p =
    print_ℕ p.count ++ codes " " ++ codes p.name ++ (if p.count == 1 then [] else codes "s")

unfoldable pub join_parts : List Part → Text
join_parts [] = []
join_parts (p ∷ []) = part_text p
join_parts (p ∷ q ∷ ps) = part_text p ++ codes " " ++ join_parts (q ∷ ps)

unfoldable pub format_countdown : ℕ → Text
format_countdown seconds =
    if seconds == 0 then codes "0 seconds" else join_parts (countdown_parts units seconds [])

-- `Math.max(0, deadlineSeconds - Math.floor(now / 1000))`
unfoldable pub remaining_seconds : ℕ → ℕ → ℕ
remaining_seconds deadline now = deadline - now / 1000

pub data Decision : Type 0 where
  affirmative negative : Decision

pub data Problem : Type 0 where
  invalid_votes invalid_vote invalid_member : Problem

-- A vote as it comes: its text in lower case and its member.
pub record RawVote : Type 0 where
  pub vote : Option String
  pub member : Option String

pub record Vote : Type 0 where
  pub member : String
  pub vote : Decision

unfoldable pub decision_of : Option String → Outcome Problem Decision
decision_of none = thrown invalid_vote
decision_of (some s) =
    if str_eq s "affirmative"
    then returned affirmative
    else if str_eq s "negative"
    then returned negative
    else thrown invalid_vote

unfoldable pub named : Option String → Outcome Problem String
named none = thrown invalid_member
named (some s) = if str_eq s "" then thrown invalid_member else returned s

unfoldable pub read_votes : List RawVote → Outcome Problem (List Vote)
read_votes [] = returned []
read_votes (r ∷ rs) = decision_of r.vote >>= λ decision. named r.member >>= λ member.
    read_votes rs >>= λ rest. returned (record { member = member; vote = decision } ∷ rest)

unfoldable pub same_decision : Decision → Decision → Bool
same_decision affirmative affirmative = true
same_decision negative negative = true
same_decision _ _ = false

unfoldable pub tally : Decision → List Vote → ℕ
tally d [] = 0
tally d (v ∷ vs) = let rest = tally d vs in if same_decision v.vote d then suc rest else rest
