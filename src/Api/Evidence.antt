-- ===== src/Api/Evidence.antt =====
-- The routes of indexer/src/api.js that record and show the evidence of a resolution, on the table
-- of Db/Audit. `parse_date` stands for `Date.parse`, none where that is not finite, and `to_iso` for
-- the text of a date.
pub mod Shown
mod Tests
use pero_j.Base.{
  ℕ, Bool, true, false, Option, none, some, List, [], ◌∷◌, if◌then◌else◌, Outcome, returned, thrown,
}
use pero_j.Base.Int.{ℤ, pos, negsuc}
use pero_j.Base.Codes.{Text, codes}
use pero_j.ScVal.{Js, JsMembers, js_number, js_text, js_object, js_empty, js_member}
use pero_j.Db.Audit.{
  Evidence, Header, AuditLog, AuditConflict, Logs, create_resolution_audit_log,
  get_resolution_audit_log,
}
use pero_j.Api.{
  BadBody, get_member, text_member, validate_resolution_evidence_payload, normalize_submission_id,
  require_admin_key,
}

pub record EvidenceRequest : Type 0 where
  pub authorization : Text
  pub submission_id : Text
  pub body : Js

-- With the status codes 401, 400, 400, 409, 201, 404 and 200.
pub data EvidenceReply (H : Type 0) : Type 0 where
  unauthorized bad_submission_id : EvidenceReply H
  invalid_evidence : BadBody → EvidenceReply H
  conflict : EvidenceReply H
  recorded : AuditLog H → EvidenceReply H
  not_found : EvidenceReply H
  found : AuditLog H → EvidenceReply H

unfoldable pub members_of : Js → JsMembers
members_of (js_object body) = body
members_of v = js_empty

-- What the checks have made sure of is read without a test; other values have no meaning here.
unfoldable pub text_or_none : Option Js → Text
text_or_none (some (js_text s)) = s
text_or_none v = []

unfoldable pub status_of : Option Js → ℕ
status_of (some (js_number (pos n))) = n
status_of v = 0

unfoldable pub header_entries : JsMembers → List Header
header_entries js_empty = []
header_entries (js_member k v rest) = (k, text_or_none (some v)) ∷ header_entries rest

unfoldable pub headers_of : Option Js → List Header
headers_of (some (js_object headers)) = header_entries headers
headers_of v = []

unfoldable pub iso_text : (ℤ → Text) → Option ℤ → Text
iso_text to_iso none = []
iso_text to_iso (some z) = to_iso z

module _ (key previous : Text) (parse_date : Text → Option ℤ) (to_iso : ℤ → Text) {H : Type 0}
    (dec : Discrete Text) (digest : Evidence → H) (same : Discrete H) where
  unfoldable pub evidence_of : Text → JsMembers → Evidence
  evidence_of id body = record {
    submission_id = id;
    response_payload = text_or_none (get_member (codes "response_payload") body);
    response_status = status_of (get_member (codes "response_status") body);
    response_headers = headers_of (get_member (codes "response_headers") body);
    resolved_at =
        iso_text to_iso (parse_date (text_or_none (get_member (codes "resolved_at") body)));
  }

  unfoldable pub create_reply :
      Outcome AuditConflict (AuditLog H) × Logs dec digest same
      → EvidenceReply H × Logs dec digest same
  create_reply (returned row, logs) = (recorded row, logs)
  create_reply (thrown e, logs) = (conflict, logs)

  unfoldable pub with_payload :
      Text → Js → Option BadBody → Logs dec digest same → EvidenceReply H × Logs dec digest same
  with_payload id body (some problem) logs = (invalid_evidence problem, logs)
  with_payload id body none logs =
      create_reply
        (create_resolution_audit_log dec digest same (evidence_of id (members_of body)) logs)

  unfoldable pub with_id :
      Option Text → Js → Logs dec digest same → EvidenceReply H × Logs dec digest same
  with_id none body logs = (bad_submission_id, logs)
  with_id (some id) body logs =
      with_payload id body (validate_resolution_evidence_payload parse_date body) logs

  -- `POST /api/v1/oracle/resolutions/:submissionId/evidence`
  unfoldable pub post_evidence :
      EvidenceRequest → Logs dec digest same → EvidenceReply H × Logs dec digest same
  post_evidence r logs =
      if require_admin_key key previous r.authorization
      then with_id (normalize_submission_id r.submission_id) r.body logs
      else (unauthorized, logs)

  unfoldable pub post_all : List EvidenceRequest → Logs dec digest same → Logs dec digest same
  post_all [] logs = logs
  post_all (r ∷ rs) logs = post_all rs (post_evidence r logs).1

module _ {H : Type 0} (dec : Discrete Text) (digest : Evidence → H) (same : Discrete H) where
  unfoldable pub show_record : Option (AuditLog H) → EvidenceReply H
  show_record none = not_found
  show_record (some row) = found row

  unfoldable pub show_id : Option Text → Logs dec digest same → EvidenceReply H
  show_id none logs = bad_submission_id
  show_id (some id) logs = show_record (get_resolution_audit_log dec digest same id logs)

  -- `GET /api/v1/oracle/resolutions/:submissionId/evidence`
  unfoldable pub get_evidence : Text → Logs dec digest same → EvidenceReply H
  get_evidence submission_id logs = show_id (normalize_submission_id submission_id) logs
