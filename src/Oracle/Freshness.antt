-- ===== src/Oracle/Freshness.antt =====
-- The freshness of adapter data: oracle/src/adapters/freshness.js. Times are whole milliseconds.
-- An adapter acts on a world of its own, and the clock reads it.
pub mod First
mod Tests
use pero_j.Base.{
  ℕ, ◌+◌, ◌*◌, Bool, true, false, ◌&&◌, Option, none, some, List, [], ◌∷◌, ◌++◌, Outcome, returned,
  thrown, if◌then◌else◌, ltb, leb,
}
use pero_j.Base.Int.{ℤ, pos, ◌*ℤ◌, ◌-ℤ◌, ltb_ℤ, leb_ℤ}

abbrev pub default_max_age_ms : ℕ
default_max_age_ms = 10 * 60 * 1000

-- `last_updated ?? timestamp`: a Date, a number (or the text of one), or another text, which
-- `Date.parse` may read.
pub data TimeValue : Type 0 where
  date : Option ℤ → TimeValue
  number : ℤ → TimeValue
  text : Option ℤ → TimeValue

-- Milliseconds, or `none` for NaN. A number below 10^12 is in seconds.
unfoldable pub get_timestamp : Option TimeValue → Option ℤ
get_timestamp none = none
get_timestamp (some (date t)) = t
get_timestamp (some (number n)) = some (if ltb_ℤ n (pos 1000000000000) then n *ℤ pos 1000 else n)
get_timestamp (some (text t)) = t

pub record Response (A : Type 0) : Type 0 where
  pub value : A
  pub last_updated : Option TimeValue
  pub timestamp : Option TimeValue

unfoldable pub time_value : {A : Type 0} → Response A → Option TimeValue
time_value r = elim r.last_updated [ none ↦ r.timestamp | some t ↦ some t ]

unfoldable pub is_fresh : {A : Type 0} → Response A → ℤ → ℤ → Bool
is_fresh r now max_age_ms = elim (get_timestamp (time_value r)) [
  | none ↦ false
  | some t ↦ leb_ℤ (pos 0) (now -ℤ t) && ltb_ℤ (now -ℤ t) max_age_ms
]

-- Why an adapter's answer was passed over.
pub data Failure (E : Type 0) : Type 0 where
  stale : Failure E
  failed : E → Failure E

pub data Problem (E : Type 0) : Type 0 where
  no_adapters invalid_max_age : Problem E
  aggregate : List (Failure E) → Problem E

module _ {W A E : Type 0} (clock : W → ℤ) where
  -- The loop over the adapters, with the failures so far.
  unfoldable pub try_adapters :
      ℤ
      → List (W → W × Outcome E (Response A))
      → List (Failure E)
      → W
      → Outcome (Problem E) (Response A) × W
  try_adapters max_age_ms [] failures w = (thrown (aggregate failures), w)
  try_adapters max_age_ms (fetch ∷ rest) failures w =
      let r = fetch w in
      elim r.1 [
        | thrown e ↦ try_adapters max_age_ms rest (failures ++ failed e ∷ []) r.0
        | returned response ↦ elim (is_fresh response (clock r.0) max_age_ms) [
          | true ↦ (returned response, r.0)
          | false ↦ try_adapters max_age_ms rest (failures ++ stale ∷ []) r.0
        ]
      ]

  unfoldable pub fetch_fresh_from_adapters :
      ℤ → List (W → W × Outcome E (Response A)) → W → Outcome (Problem E) (Response A) × W
  fetch_fresh_from_adapters max_age_ms [] w = (thrown no_adapters, w)
  fetch_fresh_from_adapters max_age_ms (a ∷ others) w =
      if leb_ℤ max_age_ms (pos 0)
      then (thrown invalid_max_age, w)
      else try_adapters max_age_ms (a ∷ others) [] w
