-- ===== src/Db/Volume/Tests.antt =====
-- Runs of the volume of indexer/src/db.js.
use pero_j.Base.{some, ◌≡◌, refl}
use pero_j.Base.Int.{◌-ℤ◌, ◌*ℤ◌, ◌/ℤ◌}
use pero_j.Base.Codes.{codes}
use pero_j.Base.Decimal.{
  negate, big_int, print_before, print_ℕ, print_ℤ, decimal_value, value_after,
}
use pero_j.Db.Volume.{before_point, rem_ℤ, zeros, pad_start, scale, get_24h_volume}
use pero_j.Db.Volume.Scaled.{Denotes, sum_text, get_24h_volume-Denotes}

program : Unit {0}
unfolding ◌-ℤ◌ ◌*ℤ◌ ◌/ℤ◌ codes print_before print_ℕ print_ℤ decimal_value value_after before_point
    negate big_int rem_ℤ zeros pad_start scale get_24h_volume
program = tt

scaled : (get_24h_volume (codes "1230000045.75") 7).volume_scaled ≡ codes "123.0000045"
unfolding program
scaled = refl

-- A negative sum has a second sign.
negative_sum : (get_24h_volume (codes "-15") 1).volume_scaled ≡ codes "-1.-5"
unfolding program
negative_sum = refl

get_24h_volume-Denotes_example :
    Denotes 1230000045 7 (get_24h_volume (sum_text 1230000045 (some (codes "75"))) 7).volume_scaled
get_24h_volume-Denotes_example = get_24h_volume-Denotes 1230000045 7 (some (codes "75"))
