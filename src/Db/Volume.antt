-- ===== src/Db/Volume.antt =====
-- The volume of a contract: `get24hVolume` of indexer/src/db.js, from the sum that the database
-- gives as a text. The choice of the rows (transfers of the last 24 hours whose data is a JSON
-- object) stays in the query.
pub mod Scaled
mod Tests
use pero_j.Base.{
  ℕ, zero, suc, ◌-◌, ◌^◌, Bool, true, false, List, [], ◌∷◌, ◌++◌, ◌==◌, if◌then◌else◌, length,
}
use pero_j.Base.Int.{ℤ, pos, negsuc, ◌-ℤ◌, ◌*ℤ◌, ◌/ℤ◌}
use pero_j.Base.Codes.{Text}
use pero_j.Base.Decimal.{print_ℤ, big_int}

-- `raw.split(".")[0]`
unfoldable pub before_point : Text → Text
before_point [] = []
before_point (c ∷ s) = let rest = before_point s in if c == 46 then [] else c ∷ rest

-- The remainder of a BigInt division has the sign of the dividend.
unfoldable pub rem_ℤ : ℤ → ℤ → ℤ
rem_ℤ a b = a -ℤ (a /ℤ b) *ℤ b

unfoldable pub zeros : ℕ → Text → Text
zeros zero s = s
zeros (suc n) s = 48 ∷ zeros n s

-- `text.padStart(n, "0")`
unfoldable pub pad_start : ℕ → Text → Text
pad_start n s = zeros (n - length s) s

pub record VolumeResult : Type 0 where
  pub volume_raw : Text
  pub volume_scaled : Text
  pub decimals : ℕ

unfoldable pub scale : ℤ → ℕ → Text
scale raw decimals =
    let divisor = pos (10 ^ decimals) in
    print_ℤ (raw /ℤ divisor) ++ 46 ∷ pad_start decimals (print_ℤ (rem_ℤ raw divisor))

unfoldable pub get_24h_volume : Text → ℕ → VolumeResult
get_24h_volume raw decimals = record {
  volume_raw = raw;
  volume_scaled = scale (big_int (before_point raw)) decimals;
  decimals = decimals;
}
