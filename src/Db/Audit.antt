-- ===== src/Db/Audit.antt =====
-- The evidence of oracle resolutions: `createResolutionAuditLog` and `getResolutionAuditLog` of
-- indexer/src/db.js. The submission id is the unique key of the table. `digest` stands for SHA-256
-- of the JSON text of a bundle, and texts are lists of their code units. `resolved_at` is the ISO
-- text that the route makes of the date, which `toISOString` gives again.
pub mod Canonical
pub mod Immutable
mod Tests
use pero_j.Base.Codes.{Text}
use pero_j.Base.{
  ℕ, Bool, true, false, ◌&&◌, ◌||◌, Option, none, some, List, [], ◌∷◌, ◌++◌, ltb, ◌==◌,
  if◌then◌else◌, Outcome, returned, thrown, suc, length, ite,
}
use pero_j.Base.Dict.{Dict, lookup, insert}
use pero_j.Db.Order.{order_by}

-- `left < right` on texts
unfoldable pub text_lt : Text → Text → Bool
text_lt [] [] = false
text_lt [] (d ∷ t) = true
text_lt (c ∷ s) [] = false
text_lt (c ∷ s) (d ∷ t) = ltb c d || ((c == d) && text_lt s t)

abbrev pub Header : Type 0
Header = Text × Text

-- The entries of an object have different names.
pub record Evidence : Type 0 where
  pub submission_id : Text
  pub response_payload : Text
  pub response_status : ℕ
  pub response_headers : List Header
  pub resolved_at : Text

abbrev pub name_after : Header → Header → Bool
name_after a b = text_lt b.0 a.0

unfoldable pub sorted_entries : List Header → List Header
sorted_entries headers = order_by name_after headers

unfoldable pub bundle_of : Evidence → Evidence
bundle_of e = record {
  submission_id = e.submission_id;
  response_payload = e.response_payload;
  response_status = e.response_status;
  response_headers = sorted_entries e.response_headers;
  resolved_at = e.resolved_at;
}

pub record AuditLog (H : Type 0) : Type 0 where
  pub id : ℕ
  pub bundle : Evidence
  pub evidence_hash : H

pub data AuditConflict : Type 0 where
  conflicting_evidence : Text → AuditConflict

module _ {H : Type 0} (dec : Discrete Text) (digest : Evidence → H) (same : Discrete H) where
  abbrev pub Logs : Type 0
  Logs = Dict Text (AuditLog H)

  unfoldable pub get_resolution_audit_log : Text → Logs → Option (AuditLog H)
  get_resolution_audit_log id logs = lookup dec id logs

  -- `INSERT … ON CONFLICT (submission_id) DO NOTHING RETURNING …`, by what stands at the key.
  unfoldable pub insert_unless : Evidence → Logs → Option (AuditLog H) → Option (AuditLog H) × Logs
  insert_unless bundle logs (some row) = (none, logs)
  insert_unless bundle logs none =
      let row : AuditLog H = record {
        id = suc (length logs);
        bundle = bundle;
        evidence_hash = digest bundle;
      } in
      (some row, insert dec bundle.submission_id row logs)

  unfoldable pub insert_log : Evidence → Logs → Option (AuditLog H) × Logs
  insert_log bundle logs = insert_unless bundle logs (lookup dec bundle.submission_id logs)

  unfoldable pub same_evidence : Evidence → Option (AuditLog H) → Outcome AuditConflict (AuditLog H)
  same_evidence bundle none = thrown (conflicting_evidence bundle.submission_id)
  same_evidence bundle (some row) =
      ite (same row.evidence_hash (digest bundle)) (returned row)
        (thrown (conflicting_evidence bundle.submission_id))

  unfoldable pub answer_insert :
      Evidence → Option (AuditLog H) × Logs → Outcome AuditConflict (AuditLog H) × Logs
  answer_insert bundle (some row, logs) = (returned row, logs)
  answer_insert bundle (none, logs) =
      (same_evidence bundle (get_resolution_audit_log bundle.submission_id logs), logs)

  unfoldable pub create_resolution_audit_log :
      Evidence → Logs → Outcome AuditConflict (AuditLog H) × Logs
  create_resolution_audit_log evidence logs =
      let bundle = bundle_of evidence in answer_insert bundle (insert_log bundle logs)
