-- ===== src/Api.antt =====
-- The checks of the HTTP API: indexer/src/api.js. A JSON body is a value, whose texts are lists of
-- character codes. `parse_date` stands for `Date.parse`, `none` where that is not finite.
pub mod Evidence
pub mod Normal
pub mod Redirect
pub mod Register
mod Tests
use pero_j.Base.{
  ℕ, zero, suc, Bool, true, false, not, ◌&&◌, ◌||◌, Option, none, some, List, [], ◌∷◌, ◌++◌, ltb,
  leb, ◌==◌, if◌then◌else◌, length, ◌+◌, ◌-◌, ◌/◌, drop,
}
use pero_j.Base.Int.{ℤ, pos, negsuc, leb_ℤ, ltb_ℤ}
use pero_j.Base.Codes.{Text, codes, eq_text}
use pero_j.ScVal.{
  Js, JsMembers, js_null, js_bool, js_number, js_bigint, js_text, js_array, js_object, js_empty,
  js_member,
}
use pero_j.Db.Search.{is_space}

abbrev is_between : ℕ → ℕ → ℕ → Bool
is_between low high c = leb low c && leb c high

-- A member of an object; an absent one is `none`.
unfoldable pub get_member : Text → JsMembers → Option Js
get_member k js_empty = none
get_member k (js_member j v rest) =
    let later = get_member k rest in if eq_text j k then some v else later

unfoldable pub text_member : Text → JsMembers → Option Text
text_member k body = elim (get_member k body) [ some (js_text s) ↦ some s | _ ↦ none ]

-- `s.trim() === ""`
unfoldable pub is_blank : Text → Bool
is_blank [] = true
is_blank (c ∷ s) = is_space c && is_blank s

abbrev pub max_title_len : ℕ
max_title_len = 160

abbrev pub max_description_len : ℕ
max_description_len = 1000

-- Why a body is refused.
pub data BadBody : Type 0 where
  not_an_object bad_id bad_name name_too_long description_too_long functions_not_an_array : BadBody
  bad_payload bad_status bad_headers bad_time : BadBody

unfoldable pub is_blank_or_absent : Option Text → Bool
is_blank_or_absent none = true
is_blank_or_absent (some s) = is_blank s

unfoldable pub is_longer_than : ℕ → Option Text → Bool
is_longer_than n none = false
is_longer_than n (some s) = ltb n (length s)

unfoldable pub is_array : Option Js → Bool
is_array (some (js_array items)) = true
is_array v = false

unfoldable pub check_contract : JsMembers → Option BadBody
check_contract body =
    let name = text_member (codes "name") body in
    if is_blank_or_absent (text_member (codes "id") body)
    then some bad_id
    else if is_blank_or_absent name
    then some bad_name
    else if is_longer_than max_title_len name
    then some name_too_long
    else if is_longer_than max_description_len (text_member (codes "description") body)
    then some description_too_long
    else if not (is_array (get_member (codes "functions") body))
    then some functions_not_an_array
    else none

unfoldable pub validate_contract_payload : Js → Option BadBody
validate_contract_payload (js_object body) = check_contract body
validate_contract_payload v = some not_an_object

-- `/^[!#$%&'*+.^_`|~0-9A-Za-z-]+$/`
unfoldable pub is_token_char : ℕ → Bool
is_token_char c =
    is_between 48 57 c
    || (is_between 65 90 c
        || (is_between 94 122 c
            || (is_between 35 39 c
                || ((c == 33)
                    || ((c == 42)
                        || ((c == 43)
                            || ((c == 45) || ((c == 46) || ((c == 124) || (c == 126))))))))))

unfoldable pub all_token_chars : Text → Bool
all_token_chars [] = true
all_token_chars (c ∷ s) = is_token_char c && all_token_chars s

unfoldable pub is_header_name : Text → Bool
is_header_name [] = false
is_header_name (c ∷ s) = all_token_chars (c ∷ s)

unfoldable pub is_text : Js → Bool
is_text (js_text s) = true
is_text v = false

unfoldable pub all_headers : JsMembers → Bool
all_headers js_empty = true
all_headers (js_member k v rest) = is_header_name k && (is_text v && all_headers rest)

unfoldable pub headers_ok : Option Js → Bool
headers_ok (some (js_object headers)) = all_headers headers
headers_ok v = false

-- A number of a body is whole here.
unfoldable pub status_ok : Option Js → Bool
status_ok (some (js_number n)) = leb_ℤ (pos 100) n && leb_ℤ n (pos 599)
status_ok v = false

unfoldable pub is_present : {A : Type 0} → Option A → Bool
is_present none = false
is_present (some a) = true

module _ (parse_date : Text → Option ℤ) where
  unfoldable pub time_ok : Option Text → Bool
  time_ok none = false
  time_ok (some s) = is_present (parse_date s)

  unfoldable pub check_evidence : JsMembers → Option BadBody
  check_evidence body =
      if not (is_present (text_member (codes "response_payload") body))
      then some bad_payload
      else if not (status_ok (get_member (codes "response_status") body))
      then some bad_status
      else if not (headers_ok (get_member (codes "response_headers") body))
      then some bad_headers
      else if not (time_ok (text_member (codes "resolved_at") body))
      then some bad_time
      else none

  unfoldable pub validate_resolution_evidence_payload : Js → Option BadBody
  validate_resolution_evidence_payload (js_object body) = check_evidence body
  validate_resolution_evidence_payload v = some not_an_object

unfoldable pub all_digits : Text → Bool
all_digits [] = true
all_digits (c ∷ s) = is_between 48 57 c && all_digits s

-- `.replace(/^0+(?=\d)/, "")` of digits
unfoldable pub strip_zeros : Text → Text
strip_zeros [] = []
strip_zeros (c ∷ []) = c ∷ []
strip_zeros (c ∷ d ∷ s) = let rest = strip_zeros (d ∷ s) in if c == 48 then rest else c ∷ d ∷ s

unfoldable pub normalize_submission_id : Text → Option Text
normalize_submission_id [] = none
normalize_submission_id (c ∷ s) = if all_digits (c ∷ s) then some (strip_zeros (c ∷ s)) else none

unfoldable pub to_lower : ℕ → ℕ
to_lower c = if is_between 65 90 c then c + 32 else c

unfoldable pub after_prefix : Text → Text → Option Text
after_prefix [] s = some s
after_prefix (p ∷ ps) [] = none
after_prefix (p ∷ ps) (c ∷ s) =
    let rest = after_prefix ps s in if to_lower p == to_lower c then rest else none

unfoldable pub skip_spaces : Text → Text
skip_spaces [] = []
skip_spaces (c ∷ s) = let rest = skip_spaces s in if is_space c then rest else c ∷ s

-- `/^Bearer\s+(.+)$/i`, of a header that does not end in white space.
unfoldable pub bearer_token : Text → Option Text
bearer_token header = elim (after_prefix (codes "bearer") header) [
  | none ↦ none
  | some [] ↦ none
  | some (c ∷ s) ↦ if is_space c then some (skip_spaces s) else none
]

unfoldable pub is_accepted : Text → List Text → Bool
is_accepted token [] = false
is_accepted token ([] ∷ keys) = is_accepted token keys
is_accepted token ((c ∷ k) ∷ keys) = eq_text (c ∷ k) token || is_accepted token keys

-- Whether the request goes on; otherwise it is answered with 401. An absent header or key is the
-- empty text.
unfoldable pub require_admin_key : (key previous header : Text) → Bool
require_admin_key key previous header = elim (bearer_token header) [
  | none ↦ false
  | some token ↦ is_accepted token (key ∷ previous ∷ [])
]

pub data HealthStatus : Type 0 where
  health_ok health_degraded health_error : HealthStatus

pub record Health : Type 0 where
  pub code : ℕ
  pub status : HealthStatus
  pub uptime_seconds : ℕ
  pub lag_seconds : Option ℕ

unfoldable pub exceeds : ℕ → Option ℕ → Bool
exceeds threshold none = false
exceeds threshold (some lag) = ltb threshold lag

unfoldable pub lag_of : ℕ → Option ℕ → Option ℕ
lag_of now none = none
lag_of now (some last) = some ((now - last) / 1000)

-- `GET /health`. Times are in milliseconds, and the clock does not run backwards.
unfoldable pub get_health :
    (threshold now started : ℕ) (last_indexed : Option ℕ) (db_connected : Bool) → Health
get_health threshold now started last_indexed db_connected =
    let lag = lag_of now last_indexed in
    let degraded = exceeds threshold lag in
    record {
      code = if db_connected then if degraded then 503 else 200 else 503;
      status =
          if db_connected then if degraded then health_degraded else health_ok else health_error;
      uptime_seconds = (now - started) / 1000;
      lag_seconds = lag;
    }

-- `GET /ready`
unfoldable pub get_ready : Bool → ℕ
get_ready db_connected = if db_connected then 200 else 503
