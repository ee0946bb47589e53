-- ===== src/Disputes/Countdown.antt =====
-- What the countdown of indexer/src/oracleDisputes.js says about the seconds that remain.
use pero_j.Base.{ℕ, ◌/◌, ◌%◌, List, [], ◌∷◌, ◌≡◌, ap, arith, ◌==◌, take, if◌then◌else◌}
use pero_j.Base.Codes.{codes}
use pero_j.Disputes.{Part, units, countdown_parts, join_parts, format_countdown}

-- The clock's reading: all four numbers, each below the next unit.
abbrev pub reading : ℕ → List Part
reading seconds =
    record { name = "day"; count = seconds / 86400 }
    ∷ record { name = "hour"; count = seconds / 3600 % 24 }
    ∷ record { name = "minute"; count = seconds / 60 % 60 }
    ∷ record { name = "second"; count = seconds % 60 }
    ∷ []

unfoldable pub without_zeros : List Part → List Part
without_zeros [] = []
without_zeros (p ∷ ps) = let rest = without_zeros ps in if p.count == 0 then rest else p ∷ rest

parts-reading :
    (seconds : ℕ) → countdown_parts units seconds [] ≡ take 2 (without_zeros (reading seconds))
unfolding countdown_parts without_zeros
parts-reading seconds = ground arith

-- The countdown is "0 seconds" if none remain. Otherwise it is the first two numbers that are not
-- zero of days, hours, minutes and seconds, as on a clock, each with its unit.
pub format_countdown-reading :
    (seconds : ℕ)
    → format_countdown seconds ≡ (
        if seconds == 0
        then codes "0 seconds"
        else join_parts (take 2 (without_zeros (reading seconds))))
unfolding format_countdown
format_countdown-reading seconds =
    ap (λ ps. if seconds == 0 then codes "0 seconds" else join_parts ps) (parts-reading seconds)
