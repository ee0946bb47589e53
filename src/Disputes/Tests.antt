-- ===== src/Disputes/Tests.antt =====
-- Runs of the dispute formatting of indexer/src/oracleDisputes.js.
use pero_j.Base.{if◌then◌else◌, ◌==◌, take, ◌≡◌, refl, some, List, [], ◌∷◌}
use pero_j.Disputes.{
  countdown_parts, part_text, join_parts, format_countdown, remaining_seconds, affirmative,
  negative, RawVote, Vote, decision_of, named, read_votes, same_decision, tally,
}
use pero_j.Base.Codes.{codes}
use pero_j.Base.Decimal.{print_before, print_ℕ}
use pero_j.Disputes.Countdown.{reading, without_zeros, format_countdown-reading}

program : Unit {0}
unfolding codes print_before print_ℕ countdown_parts part_text join_parts format_countdown
    remaining_seconds decision_of named read_votes same_decision tally
program = tt

-- One day and five minutes, and seven seconds that are not shown.
skips_hours : format_countdown 86707 ≡ codes "1 day 5 minutes"
unfolding program
skips_hours = refl

no_time : format_countdown 0 ≡ codes "0 seconds"
unfolding program
no_time = refl

format_countdown-reading_example : format_countdown 86707 ≡ (
    if 86707 == 0 then codes "0 seconds" else join_parts (take 2 (without_zeros (reading 86707))))
format_countdown-reading_example = format_countdown-reading 86707

abbrev raw : List RawVote
raw =
    record { vote = some "affirmative"; member = some "ann" }
    ∷ record { vote = some "negative"; member = some "bob" }
    ∷ []

abbrev read : List Vote
read =
    record { member = "ann"; vote = affirmative } ∷ record { member = "bob"; vote = negative } ∷ []
