-- ===== src/Attestation.antt =====
-- Off-chain oracle attestations: `verifyAndConsumeOracleAttestation` of indexer/src/oracle.js.
-- What is not a text is read as `none` where the code asks for a text; `timestamp` is what
-- `Number(timestamp)` gives, in whole milliseconds, or `none` if that is not finite. The
-- signature library and the table of consumed nonces are parameters.
pub mod Values
pub mod Canonical
pub mod Accept
pub mod Replay
mod Tests
use Prim.Native.String.{String}
use text.Mathlib.Text.{◌==◌ as str_eq}
use pero_j.Base.{
  ℕ, ◌+◌, ◌*◌, ◌≡◌, Bool, true, false, not, Option, none, some, List, [], ◌∷◌, if◌then◌else◌,
  Outcome, returned, thrown, ◌>>=◌, ◌>>◌,
}
use pero_j.Base.Int.{ℤ, pos, ◌-ℤ◌, ltb_ℤ, eqb_ℤ}
use pero_j.Base.Text.{is_empty}
use Values.{Json, Fields, null, end, field, num, str, obj, pick}

abbrev pub domain_separator : String
domain_separator = "PERO-J_ORACLE_ATTESTATION_V1"

abbrev pub max_timestamp_age_ms : ℕ
max_timestamp_age_ms = 5 * 60 * 1000

abbrev pub max_future_drift_ms : ℕ
max_future_drift_ms = 60 * 1000

pub record Payload : Type 0 where
  pub domain : Option String
  pub chain_id : Option String
  pub market_id : Option String
  pub nonce : Option String
  pub timestamp : Option ℤ
  pub outcome : Option Json
  pub provider_id : Option String
  pub signature : Option String

-- The codes of `OracleVerificationError`.
pub data Code : Type 0 where
  invalid_payload invalid_domain missing_chain_id missing_market_id missing_nonce : Code
  missing_outcome missing_provider_id missing_signature invalid_timestamp : Code
  signature_expired timestamp_in_future replay_detected invalid_signature : Code

pub status_code : Code → ℕ
status_code replay_detected = 409
status_code invalid_signature = 401
status_code _ = 400

-- A verification error, or an error of the database that is passed on.
pub data Failure (E : Type 0) : Type 0 where
  refused : Code → Failure E
  database : E → Failure E

-- The payload once its fields are checked.
pub record Message : Type 0 where
  pub domain : String
  pub chain_id : String
  pub market_id : String
  pub nonce : String
  pub timestamp : ℤ
  pub outcome : Json
  pub provider_id : String
  pub signature : String

-- The sorted keys of the normalised message.
abbrev pub message_keys : List String
message_keys = "chain_id" ∷ "domain" ∷ "market_id" ∷ "nonce" ∷ "outcome" ∷ "timestamp" ∷ []

-- What is serialised and hashed.
pub canonical_message : Message → Json
canonical_message p = pick message_keys (
    obj (
      field "domain" (str p.domain) (
        field "chain_id" (str p.chain_id) (
          field "market_id" (str p.market_id) (
            field "nonce" (str p.nonce)
              (field "timestamp" (num p.timestamp) (field "outcome" p.outcome end)))))))

-- `!value || typeof value !== "string"` throws.
pub required : {E : Type 0} → Option String → Code → Outcome (Failure E) String
required none code = thrown (refused code)
required (some s) code = if is_empty s then thrown (refused code) else returned s

-- `!Number.isFinite(ts)` throws.
pub finite : {E : Type 0} → Option ℤ → Outcome (Failure E) ℤ
finite none = thrown (refused invalid_timestamp)
finite (some ts) = returned ts

-- `outcome === undefined || outcome === null` throws.
pub stated : {E : Type 0} → Option Json → Outcome (Failure E) Json
stated none = thrown (refused missing_outcome)
stated (some null) = thrown (refused missing_outcome)
stated (some outcome) = returned outcome

pub refuse_if : {E : Type 0} → Bool → Code → Outcome (Failure E) (Unit {0})
refuse_if test code = if test then thrown (refused code) else returned tt

-- `options.now || Date.now()`
pub current_time : Option ℤ → ℤ → ℤ
current_time none clock = clock
current_time (some now) clock = if eqb_ℤ now (pos 0) then clock else now

-- Steps 1 to 3: the domain, the mandatory fields, the freshness window.
pub check_fields : {E : Type 0} → Option Payload → ℤ → Outcome (Failure E) Message
check_fields none now = thrown (refused invalid_payload)
check_fields (some p) now = do
  domain ← required p.domain invalid_domain
  refuse_if (not (str_eq domain domain_separator)) invalid_domain
  chain_id ← required p.chain_id missing_chain_id
  market_id ← required p.market_id missing_market_id
  nonce ← required p.nonce missing_nonce
  outcome ← stated p.outcome
  provider_id ← required p.provider_id missing_provider_id
  signature ← required p.signature missing_signature
  ts ← finite p.timestamp
  refuse_if (ltb_ℤ (pos max_timestamp_age_ms) (now -ℤ ts)) signature_expired
  refuse_if (ltb_ℤ (pos max_future_drift_ms) (ts -ℤ now)) timestamp_in_future
  returned (record {
    domain = domain;
    chain_id = chain_id;
    market_id = market_id;
    nonce = nonce;
    timestamp = ts;
    outcome = outcome;
    provider_id = provider_id;
    signature = signature;
  })

-- The table of consumed nonces, with the unique constraint on provider and nonce.
pub data Insertion (S E : Type 0) : Type 0 where
  inserted : S → Insertion S E
  unique_violation : Insertion S E
  failed : E → Insertion S E

pub record NonceTable (S E : Type 0) : Type 0 where
  pub is_nonce_consumed : String → String → S → Outcome E Bool
  pub record_oracle_nonce : Message → S → Insertion S E

-- Whether a signature verifies over the canonical message, or the attempt throws.
abbrev pub Verifier : Type 0
Verifier = Json → String → String → Option Bool

-- Step 5.
pub check_signature : {E : Type 0} → Verifier → Message → Outcome (Failure E) (Unit {0})
check_signature verify p = elim (verify (canonical_message p) p.provider_id p.signature) [
  | none ↦ thrown (refused invalid_signature)
  | some valid ↦ refuse_if (not valid) invalid_signature
]

module _ {S E : Type 0} (table : NonceTable S E) where
  -- Step 4, read from the table as it is when the check is made.
  pub check_replay : Message → S → Outcome (Failure E) (Unit {0})
  check_replay p s = elim (table.is_nonce_consumed p.provider_id p.nonce s) [
    | thrown x ↦ thrown (database x)
    | returned consumed ↦ refuse_if consumed replay_detected
  ]

  -- Step 6, on the table as it is when the write is made.
  pub consume : Message → S → Outcome (Failure E) (Unit {0}) × S
  consume p s = elim (table.record_oracle_nonce p s) [
    | inserted s' ↦ (returned tt, s')
    | unique_violation ↦ (thrown (refused replay_detected), s)
    | failed x ↦ (thrown (database x), s)
  ]

module _ {S E : Type 0} (verify : Verifier) (table : NonceTable S E) where
  -- Steps 1 to 5, up to the write.
  pub check : Option Payload → ℤ → S → Outcome (Failure E) Message
  check payload now s = do
    p ← check_fields payload now
    check_replay table p s
    check_signature verify p
    returned p

  -- The whole function, when nothing else writes between the check and the write.
  pub verify_and_consume : Option Payload → ℤ → S → Outcome (Failure E) (Unit {0}) × S
  verify_and_consume payload now s = elim (check payload now s) [
    | thrown x ↦ (thrown x, s)
    | returned p ↦ consume table p s
  ]
