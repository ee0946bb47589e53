-- ===== src/Decoder/Total.antt =====
-- When `decode` of indexer/src/decoder.js returns a record, and when it throws.
use pero_j.Base.{Bool, true, Option, List, ◌++◌, ◌≡◌, length, All, ℕ}
use pero_j.Base.Codes.{Text, codes}
use pero_j.ScVal.{Js}
use pero_j.Decoder.Sanitise.{join_texts}
use pero_j.Decoder.Sanitise.Safe.{IsSafe}
use pero_j.Decoder.{ContractMeta, RawEvent, Decoded, rest_of_topics, contract_label, function_name}

-- The description of a call, in which every argument that is shown is safe.
unfoldable pub IsSafeDescription : (Text → Bool) → Text → ℕ → Text → Text → Type 0
IsSafeDescription is_key fn arguments label s =
    (shown : List Text) × (s
      ≡ fn ++ codes "(" ++ join_texts (codes ", ") shown ++ codes ") called on " ++ label)
    × (length shown ≡ arguments)
    × All (IsSafe is_key) shown

module _ {E : Type 0} (is_key : Text → Bool) (sac_asset_of : Text → Option Text)
    (ev : RawEvent E) where
  -- The record of an event.
  unfoldable pub IsRecord : Option ContractMeta → List Js → Decoded → Type 0
  IsRecord meta topics d =
      (length d.raw_topics ≡ length ev.topics)
      × (d.function ≡ function_name topics)
      × (d.warned ≡ true
          → IsSafeDescription is_key d.function (length (rest_of_topics topics))
              (contract_label (sac_asset_of ev.contract_id) ev.contract_id meta) d.description)
