-- ===== src/Decoder.antt =====
-- The event decoder: indexer/src/decoder.js. Whether a text is a public key of Stellar, the asset of
-- a contract and the answers of the ABI cache and of the database are arguments.
pub mod Sanitise
pub mod Addresses
pub mod Describe
pub mod Strings
pub mod Total
mod Tests
use pero_j.Base.{
  ℕ, zero, suc, Bool, true, false, not, ◌&&◌, ◌||◌, Option, none, some, List, [], ◌∷◌, ◌++◌, map,
  if◌then◌else◌, Outcome, returned, thrown, ◌>>=◌,
}
use pero_j.Base.Codes.{Text, codes, eq_text}
use pero_j.ScVal.{Js, JsItems, js_text, js_item, js_end, to_string}
use pero_j.Decoder.Sanitise.{generic_description}
use pero_j.Decoder.Describe.{build_description}
use pero_j.Decoder.Strings.{string_throws, any_throws}
use pero_j.Decoder.Addresses.{extract_addresses}

pub record FunctionAbi : Type 0 where
  pub name : Text

pub record ContractMeta : Type 0 where
  pub name : Text
  pub functions : List FunctionAbi

-- What `decode` writes to the ABI cache: an entry with the time that it lives, in milliseconds.
pub record CacheWrite : Type 0 where
  pub meta : Option ContractMeta
  pub ttl : ℕ

abbrev pub meta_ttl_ms : ℕ
meta_ttl_ms = 60000

abbrev pub unregistered_ttl_ms : ℕ
unregistered_ttl_ms = 2000

-- `db.getContractMeta(id).catch(() => null)`
unfoldable pub or_null : {E : Type 0} → Outcome E (Option ContractMeta) → Option ContractMeta
or_null (returned meta) = meta
or_null (thrown e) = none

unfoldable pub remember : Option ContractMeta → CacheWrite
remember none = record { meta = none; ttl = unregistered_ttl_ms }
remember (some meta) = record { meta = some meta; ttl = meta_ttl_ms }

-- `none` is no entry in the cache, `some none` the entry of a contract that is not registered.
unfoldable pub find_meta :
    {E : Type 0}
    → Option (Option ContractMeta)
    → Outcome E (Option ContractMeta)
    → Option ContractMeta × Option CacheWrite
find_meta (some meta) answer = (meta, none)
find_meta none answer = let meta = or_null answer in (meta, some (remember meta))

unfoldable pub has_function : Text → List FunctionAbi → Bool
has_function fn [] = false
has_function fn (f ∷ fs) = eq_text f.name fn || has_function fn fs

unfoldable pub is_mapped : Text → Option ContractMeta → Bool
is_mapped fn none = false
is_mapped fn (some meta) = has_function fn meta.functions

-- A topic that cannot be converted.
unfoldable pub decode_topic : {E : Type 0} → Outcome E Js → Js
decode_topic (returned v) = v
decode_topic (thrown e) = js_text (codes "<decode_error>")

unfoldable pub text_of : Js → Text
text_of (js_text s) = s
text_of v = codes "unknown"

unfoldable pub function_name : List Js → Text
function_name [] = codes "unknown"
function_name (v ∷ vs) = text_of v

unfoldable pub rest_of_topics : List Js → List Js
rest_of_topics [] = []
rest_of_topics (v ∷ vs) = vs

unfoldable pub first_eight : ℕ → Text → Text
first_eight zero s = []
first_eight (suc n) [] = []
first_eight (suc n) (c ∷ s) = c ∷ first_eight n s

unfoldable pub name_or : Text → Option ContractMeta → Text
name_or id none = id
name_or id (some meta) = meta.name

unfoldable pub contract_label : Option Text → Text → Option ContractMeta → Text
contract_label none id meta = name_or id meta
contract_label (some asset) id meta = asset ++ codes " (SAC:" ++ first_eight 8 id ++ codes "…)"

pub record RawEvent (E : Type 0) : Type 0 where
  pub contract_id : Text
  pub topics : List (Outcome E Js)
  pub value : Outcome E Js
  pub ledger : ℕ
  pub tx_hash : Text

-- `warned`: whether the event was counted as unmapped.
pub record Decoded : Type 0 where
  pub contract_id : Text
  pub function : Text
  pub ledger : ℕ
  pub tx_hash : Text
  pub description : Text
  pub raw_topics : List Text
  pub raw_data : Js
  pub event_addresses : List Text
  pub sac_asset : Option Text
  pub warned : Bool

unfoldable pub describe : (Text → Bool) → Text → Option ContractMeta → List Js → Js → Text → Text
describe is_key fn meta args payload label =
    let mapped = build_description is_key fn args payload label in
    let generic = generic_description is_key fn args label in
    if is_mapped fn meta then mapped else generic

-- A value that cannot be converted, or one of which `String` makes no text.
pub data DecodeError (E : Type 0) : Type 0 where
  no_value : E → DecodeError E
  no_text : DecodeError E

-- Every topic becomes a text, and the description of a known transfer has the payload's.
unfoldable pub throws : Text → Bool → List Js → Js → Bool
throws fn mapped topics payload =
    any_throws topics || (mapped && (eq_text fn (codes "transfer") && string_throws payload))

module _ {E : Type 0} (is_key : Text → Bool) (sac_asset_of : Text → Option Text) where
  unfoldable pub decoded_as : RawEvent E → List Js → Option ContractMeta → Js → Decoded
  decoded_as ev topics meta payload =
      let fn = function_name topics in
      let asset = sac_asset_of ev.contract_id in
      let args = rest_of_topics topics in
      record {
        contract_id = ev.contract_id;
        function = fn;
        ledger = ev.ledger;
        tx_hash = ev.tx_hash;
        description =
            describe is_key fn meta args payload (contract_label asset ev.contract_id meta);
        raw_topics = map to_string topics;
        raw_data = payload;
        event_addresses = extract_addresses (args ++ payload ∷ []);
        sac_asset = asset;
        warned = not (is_mapped fn meta);
      }

  unfoldable pub finish :
      RawEvent E → List Js → Option ContractMeta → Js → Outcome (DecodeError E) Decoded
  finish ev topics meta payload =
      let fn = function_name topics in
      if throws fn (is_mapped fn meta) topics payload
      then thrown no_text
      else returned (decoded_as ev topics meta payload)

  unfoldable pub decode_value :
      Option (Option ContractMeta)
      → Outcome E (Option ContractMeta)
      → RawEvent E
      → Outcome E Js
      → Outcome (DecodeError E) Decoded × Option CacheWrite
  decode_value cached answer ev (thrown e) = (thrown (no_value e), none)
  decode_value cached answer ev (returned payload) =
      let found = find_meta cached answer in
      (finish ev (map decode_topic ev.topics) found.0 payload, found.1)

  -- With what is written to the cache, also when the call throws afterwards.
  unfoldable pub decode :
      Option (Option ContractMeta)
      → Outcome E (Option ContractMeta)
      → RawEvent E
      → Outcome (DecodeError E) Decoded × Option CacheWrite
  decode cached answer ev = decode_value cached answer ev ev.value
