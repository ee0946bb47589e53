-- ===== src/Api/Evidence/Tests.antt =====
-- Runs of the routes for the evidence of resolutions of indexer/src/api.js.
use native.Mathlib.Decide.{ℕ_discrete}
use pero_j.Base.{ℕ, true, Option, none, some, [], ◌∷◌, ◌≡◌, refl}
use pero_j.Base.Int.{ℤ, pos}
use pero_j.Base.Codes.{Text, Text-discrete, codes, eq_text}
use pero_j.Base.Dict.{Dict}
use pero_j.ScVal.{Js, js_number, js_text, js_object, js_empty, js_member}
use pero_j.Db.Order.{place, order_by}
use pero_j.Db.Search.{is_space}
use pero_j.Db.Audit.{
  Evidence, AuditLog, text_lt, sorted_entries, bundle_of, insert_unless, insert_log,
  get_resolution_audit_log, same_evidence, answer_insert, create_resolution_audit_log,
}
use pero_j.Api.{
  get_member, text_member, is_token_char, all_token_chars, is_header_name, is_text, all_headers,
  headers_ok, status_ok, is_present, all_digits, strip_zeros, normalize_submission_id, to_lower,
  after_prefix, skip_spaces, bearer_token, is_accepted, require_admin_key,
  validate_resolution_evidence_payload, check_evidence, time_ok,
}
use pero_j.Api.Evidence.{
  EvidenceRequest, EvidenceReply, unauthorized, conflict, recorded, found, members_of, text_or_none,
  status_of, header_entries, headers_of, iso_text, evidence_of, create_reply, with_payload, with_id,
  post_evidence, post_all, show_record, show_id, get_evidence,
}
use pero_j.Api.Evidence.Shown.{post_evidence-get_evidence}

program : Unit {0}
unfolding Text-discrete ℕ_discrete codes eq_text place order_by is_space text_lt sorted_entries
    bundle_of insert_unless insert_log get_resolution_audit_log same_evidence answer_insert
    create_resolution_audit_log get_member text_member is_token_char all_token_chars is_header_name
    is_text all_headers headers_ok status_ok is_present all_digits strip_zeros
    normalize_submission_id to_lower after_prefix skip_spaces bearer_token is_accepted
    require_admin_key validate_resolution_evidence_payload check_evidence time_ok members_of
    text_or_none status_of header_entries headers_of iso_text evidence_of create_reply with_payload
    with_id post_evidence post_all show_record show_id get_evidence
program = tt

abbrev body_with : ℕ → Js
body_with status = js_object (
    js_member (codes "response_payload") (js_text (codes "{}")) (
      js_member (codes "response_status") (js_number (pos status)) (
        js_member (codes "response_headers")
          (js_object (js_member (codes "etag") (js_text (codes "x")) js_empty))
          (js_member (codes "resolved_at") (js_text (codes "2026")) js_empty))))

abbrev request_with : ℕ → EvidenceRequest
request_with status = record {
  authorization = codes "Bearer k";
  submission_id = codes "007";
  body = body_with status;
}

abbrev stranger : EvidenceRequest
stranger = record {
  authorization = codes "Bearer x";
  submission_id = codes "7";
  body = body_with 200;
}

abbrev parse_any : Text → Option ℤ
parse_any s = some (pos 0)

abbrev print_any : ℤ → Text
print_any z = codes "T"

abbrev no_logs : Dict Text (AuditLog ℕ)
no_logs = []

-- In place of the hash, the status.
abbrev digest : Evidence → ℕ
digest e = e.response_status

abbrev stored : Evidence
stored = record {
  submission_id = codes "7";
  response_payload = codes "{}";
  response_status = 200;
  response_headers = (codes "etag", codes "x") ∷ [];
  resolved_at = codes "T";
}

abbrev row : AuditLog ℕ
row = record { id = 1; bundle = stored; evidence_hash = 200 }

abbrev run : EvidenceRequest → Dict Text (AuditLog ℕ) → EvidenceReply ℕ × Dict Text (AuditLog ℕ)
run = post_evidence (codes "k") [] parse_any print_any Text-discrete digest ℕ_discrete

test_stranger : run stranger no_logs ≡ (unauthorized, [])
unfolding program
test_stranger = refl

test_recorded : (run (request_with 200) no_logs).0 ≡ recorded row
unfolding program
test_recorded = refl

test_conflict : (run (request_with 404) (run (request_with 200) no_logs).1).0 ≡ conflict
unfolding program
test_conflict = refl

post_evidence-get_evidence_example :
    (require_admin_key (codes "k") [] (codes "Bearer k") ≡ true)
    × (validate_resolution_evidence_payload parse_any (body_with 200) ≡ none)
    × (get_evidence Text-discrete digest ℕ_discrete (codes "7") (
          post_all
            (codes "k")
            []
            parse_any
            print_any
            Text-discrete
            digest
            ℕ_discrete
            (request_with 404 ∷ stranger ∷ [])
            (run (request_with 200) no_logs).1)
        ≡ found row)
unfolding program
post_evidence-get_evidence_example =
    post_evidence-get_evidence (codes "k") [] parse_any print_any Text-discrete digest ℕ_discrete
      (request_with 200) (request_with 404 ∷ stranger ∷ []) (codes "7") row no_logs refl refl
