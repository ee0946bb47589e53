-- ===== src/Api/Tests.antt =====
-- Runs of the checks of indexer/src/api.js.
use pero_j.Base.{ℕ, true, false, Option, none, some, [], ◌≡◌, refl, ◌⊎◌}
use pero_j.Base.Codes.{Text, codes, eq_text}
use pero_j.Base.Decimal.{decimal_value, value_after}
use pero_j.ScVal.{
  JsMembers, js_null, js_number, js_text, js_array, js_object, js_end, js_empty, js_member,
}
use pero_j.Base.Int.{ℤ, pos}
use pero_j.Db.Search.{is_space}
use pero_j.Db.Store.{get_contract_meta, upsert_contract_meta}
use pero_j.Api.{
  get_member, text_member, is_blank, is_blank_or_absent, is_longer_than, is_array, check_contract,
  validate_contract_payload, is_token_char, all_token_chars, is_header_name, is_text, all_headers,
  headers_ok, status_ok, is_present, BadBody, all_digits, strip_zeros, normalize_submission_id,
  to_lower, after_prefix, skip_spaces, bearer_token, is_accepted, require_admin_key, lag_of,
  exceeds, get_health, health_degraded, health_error, validate_resolution_evidence_payload,
  check_evidence, time_ok,
}
use pero_j.Api.Redirect.{
  starts_with, ends_segment, new_address, is_legacy, legacy_redirect, Loops, Settles,
  legacy_redirect-Settles,
}
use pero_j.Api.Register.{
  text_or_blank, js_or_null, registered_by_of, is_truthy, known_registrar, meta_of, store_contract,
  reply_of, post_contract, checked_body, created, invalid,
}

program : Unit {0}
unfolding codes eq_text decimal_value value_after is_space get_contract_meta upsert_contract_meta
    get_member text_member is_blank is_blank_or_absent is_longer_than is_array check_contract
    validate_contract_payload is_token_char all_token_chars is_header_name is_text all_headers
    headers_ok status_ok is_present all_digits strip_zeros normalize_submission_id to_lower
    after_prefix skip_spaces bearer_token is_accepted require_admin_key lag_of exceeds get_health
    validate_resolution_evidence_payload check_evidence time_ok text_or_blank js_or_null
    registered_by_of is_truthy known_registrar meta_of store_contract reply_of post_contract
    checked_body starts_with ends_segment new_address is_legacy legacy_redirect
program = tt

test_admin_key : require_admin_key (codes "new") (codes "old") (codes "bearer  old") ≡ true
unfolding program
test_admin_key = refl

test_no_key : require_admin_key [] [] (codes "Bearer x") ≡ false
unfolding program
test_no_key = refl

test_lag :
    get_health 30 100000 0 (some 50000) true
    ≡ record { code = 503; status = health_degraded; uptime_seconds = 100; lag_seconds = some 50 }
unfolding program
test_lag = refl

test_disconnected :
    get_health 30 100000 0 none false
    ≡ record { code = 503; status = health_error; uptime_seconds = 100; lag_seconds = none }
unfolding program
test_disconnected = refl

abbrev contract_body : JsMembers
contract_body = js_member (codes "id") (js_text (codes "C1")) (
    js_member (codes "name") (js_text (codes "Pool"))
      (js_member (codes "functions") (js_array js_end) js_empty))

test_register :
    (post_contract (codes "k") [] (codes "Bearer k") (js_object contract_body) []).0 ≡ created
unfolding program
test_register = refl

test_no_object :
    post_contract (codes "k") [] (codes "Bearer k") js_null [] ≡ (invalid BadBody.not_an_object, [])
unfolding program
test_no_object = refl

abbrev evidence_body : ℕ → JsMembers
evidence_body status = js_member (codes "response_payload") (js_text (codes "{}")) (
    js_member (codes "response_status") (js_number (pos status)) (
      js_member (codes "response_headers")
        (js_object (js_member (codes "etag") (js_text (codes "x")) js_empty))
        (js_member (codes "resolved_at") (js_text (codes "2026")) js_empty)))

abbrev parse_any : Text → Option ℤ
parse_any s = some (pos 0)

test_evidence :
    validate_resolution_evidence_payload parse_any (js_object (evidence_body 200)) ≡ none
unfolding program
test_evidence = refl

test_status :
    validate_resolution_evidence_payload parse_any (js_object (evidence_body 600))
    ≡ some BadBody.bad_status
unfolding program
test_status = refl

test_redirect : legacy_redirect (codes "/api/events") ≡ some (codes "/api/v1/events")
unfolding program
test_redirect = refl

test_same : legacy_redirect (codes "/apidocs") ≡ some (codes "/apidocs")
unfolding program
test_same = refl

legacy_redirect-Settles_example :
    Loops (codes "/api?q=1") (codes "/api/v1?q=1") ⊎ Settles (codes "/api/v1?q=1")
unfolding program
legacy_redirect-Settles_example =
    legacy_redirect-Settles (codes "/api?q=1") (codes "/api/v1?q=1") refl
