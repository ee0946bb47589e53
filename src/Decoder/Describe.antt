-- ===== src/Decoder/Describe.antt =====
-- The descriptions of known events: `buildDescription` of indexer/src/decoder.js. The second
-- clauses of "deposit" and "withdraw" are never reached.
use pero_j.Base.{ℕ, zero, suc, Option, none, some, List, [], ◌∷◌, ◌++◌, if◌then◌else◌, Bool}
use pero_j.Base.Codes.{Text, codes, eq_text}
use pero_j.ScVal.{Js, js_null, to_string}
use pero_j.Decoder.Sanitise.{fmt, generic_description}

-- The member of a destructured array, if it has so many.
unfoldable pub arg : ℕ → List Js → Option Js
arg n [] = none
arg zero (v ∷ vs) = some v
arg (suc n) (v ∷ vs) = arg n vs

-- In a template.
unfoldable pub shown : Option Js → Text
shown none = codes "undefined"
shown (some v) = to_string v

unfoldable pub fmt_arg : Option Js → Text
fmt_arg none = codes "undefined"
fmt_arg (some v) = fmt v

-- `token ?? ""`
unfoldable pub or_blank : Option Js → Text
or_blank none = []
or_blank (some js_null) = []
or_blank (some v) = to_string v

unfoldable pub join_all : List Text → Text
join_all [] = []
join_all (s ∷ ss) = s ++ join_all ss

-- `Address ${from} <verb> ${amount} ${token} <place> ${contract}`
unfoldable pub moved : Text → Option Js → Option Js → Option Js → Text → Text → Text
moved verb from amount token place contract = join_all (
    codes "Address "
    ∷ fmt_arg from
    ∷ verb
    ∷ shown amount
    ∷ codes " "
    ∷ or_blank token
    ∷ place
    ∷ contract
    ∷ [])

module _ (is_key : Text → Bool) where
  unfoldable pub describe_oracle : Text → List Js → Js → Text → Text
  describe_oracle fn args payload contract =
      let market = shown (arg 0 args) in
      let other = arg 1 args in
      let submission = join_all (
        codes "Oracle "
        ∷ fmt_arg other
        ∷ codes " submitted outcome \""
        ∷ shown (arg 2 args)
        ∷ codes "\" for market "
        ∷ market
        ∷ codes " on "
        ∷ contract
        ∷ []) in
      let dispute = join_all (
        codes "Address "
        ∷ fmt_arg other
        ∷ codes " disputed oracle submission for market "
        ∷ market
        ∷ codes " on "
        ∷ contract
        ∷ []) in
      let final = join_all (
        codes "Oracle finalized market "
        ∷ market
        ∷ codes " with outcome \""
        ∷ shown other
        ∷ codes "\" on "
        ∷ contract
        ∷ []) in
      let generic = generic_description is_key fn args contract in
      if eq_text fn (codes "oracle_submission")
      then submission
      else if eq_text fn (codes "oracle_dispute")
      then dispute
      else if eq_text fn (codes "oracle_finalized")
      then final
      else generic

  unfoldable pub describe_lending : Text → List Js → Js → Text → Text
  describe_lending fn args payload contract =
      let from = arg 0 args in
      let second = arg 1 args in
      let third = arg 2 args in
      let liquidation = join_all (
        codes "Address "
        ∷ fmt_arg second
        ∷ codes " liquidated "
        ∷ fmt_arg from
        ∷ codes " for "
        ∷ shown (arg 3 args)
        ∷ codes " "
        ∷ or_blank third
        ∷ codes " on "
        ∷ contract
        ∷ []) in
      let others = describe_oracle fn args payload contract in
      if eq_text fn (codes "deposit")
      then moved (codes " deposited ") from second third (codes " into ") contract
      else if eq_text fn (codes "withdraw")
      then moved (codes " withdrew ") from second third (codes " from ") contract
      else if eq_text fn (codes "stake")
      then moved (codes " staked ") from second third (codes " on ") contract
      else if eq_text fn (codes "unstake")
      then moved (codes " unstaked ") from second third (codes " on ") contract
      else if eq_text fn (codes "supply")
      then moved (codes " supplied ") from third second (codes " into ") contract
      else if eq_text fn (codes "borrow")
      then moved (codes " borrowed ") from third second (codes " from ") contract
      else if eq_text fn (codes "repay")
      then moved (codes " repaid ") from third second (codes " on ") contract
      else if eq_text fn (codes "liquidate")
      then liquidation
      else others

  unfoldable pub build_description : Text → List Js → Js → Text → Text
  build_description fn args payload contract =
      let a = arg 0 args in
      let b = arg 1 args in
      let c = arg 2 args in
      let d = arg 3 args in
      let e = arg 4 args in
      let swap = join_all (
        codes "Address "
        ∷ fmt_arg a
        ∷ codes " swapped "
        ∷ shown b
        ∷ codes " "
        ∷ shown c
        ∷ codes " → "
        ∷ shown d
        ∷ codes " "
        ∷ shown e
        ∷ codes " on "
        ∷ contract
        ∷ []) in
      let transfer = join_all (
        codes "Address "
        ∷ fmt_arg a
        ∷ codes " transferred "
        ∷ to_string payload
        ∷ codes " to "
        ∷ fmt_arg b
        ∷ codes " on "
        ∷ contract
        ∷ []) in
      let mint = join_all (
        shown b
        ∷ codes " "
        ∷ or_blank c
        ∷ codes " minted to "
        ∷ fmt_arg a
        ∷ codes " on "
        ∷ contract
        ∷ []) in
      let burn = join_all (
        shown b
        ∷ codes " "
        ∷ or_blank c
        ∷ codes " burned from "
        ∷ fmt_arg a
        ∷ codes " on "
        ∷ contract
        ∷ []) in
      let transfer_from = join_all (
        codes "Address "
        ∷ fmt_arg a
        ∷ codes " (via "
        ∷ fmt_arg b
        ∷ codes ") transferred "
        ∷ shown d
        ∷ codes " "
        ∷ or_blank e
        ∷ codes " to "
        ∷ fmt_arg c
        ∷ codes " on "
        ∷ contract
        ∷ []) in
      let burn_from = join_all (
        shown c
        ∷ codes " "
        ∷ or_blank d
        ∷ codes " burned from "
        ∷ fmt_arg a
        ∷ codes " (via "
        ∷ fmt_arg b
        ∷ codes ") on "
        ∷ contract
        ∷ []) in
      let approve = join_all (
        codes "Address "
        ∷ fmt_arg a
        ∷ codes " approved "
        ∷ fmt_arg b
        ∷ codes " to spend on "
        ∷ contract
        ∷ []) in
      let others = describe_lending fn args payload contract in
      if eq_text fn (codes "swap")
      then swap
      else if eq_text fn (codes "transfer")
      then transfer
      else if eq_text fn (codes "mint")
      then mint
      else if eq_text fn (codes "burn")
      then burn
      else if eq_text fn (codes "transfer_from")
      then transfer_from
      else if eq_text fn (codes "burn_from")
      then burn_from
      else if eq_text fn (codes "approve")
      then approve
      else others
